-- ===== src/Perception/Touch.antt =====
-- The touch pads: firmware/components/perception/touch.c. Raw values are `uint16_t`.
use companion_robot.Base.{
  ℕ, ◌+◌, ◌%◌, Bool, true, false, not, ◌&&◌, Option, none, some, List, [], ◌∷◌, ◌++◌, ltb, leb,
  if◌then◌else◌, sub32,
}
use companion_robot.Base.Float.{FloatOps}
use companion_robot.Behavior.Engine.{TouchZone}

abbrev pub debounce_count : ℕ
debounce_count = 2

abbrev pub long_press_ms : ℕ
long_press_ms = 500

-- `touch_zone_state_t`.
pub record ZoneState : Type 0 where
  pub baseline : ℕ
  pub raw_value : ℕ
  pub touched : Bool
  pub debounce_ctr : ℕ
  pub touch_start_ms : ℕ

-- `touch_event_t`.
pub record TouchReport : Type 0 where
  pub zone : TouchZone
  pub touched : Bool
  pub duration_ms : ℕ
  pub timestamp_ms : ℕ

-- What a round reads for a pad, if the reading succeeds: the value, and the clock at its two uses.
pub record PadReading : Type 0 where
  pub raw : ℕ
  pub at_change : ℕ
  pub at_hold : ℕ

abbrev pub fresh_zone : ZoneState
fresh_zone = record {
  baseline = 0;
  raw_value = 0;
  touched = false;
  debounce_ctr = 0;
  touch_start_ms = 0;
}

-- `touch_init` for a pad: the state, if the peripheral starts, with the calibration reading if that
-- succeeds.
unfoldable pub touch_init : (started : Bool) → Option ℕ → ZoneState → ZoneState
touch_init false calibrated z = z
touch_init true none z = fresh_zone
touch_init true (some val) z = record fresh_zone { baseline = val }

abbrev pub same : Bool → Bool → Bool
same true b = b
same false b = not b

-- "Debounce": the zone, and the event of a release.
unfoldable pub debounce :
    TouchZone → (raw_touched : Bool) → (now : ℕ) → ZoneState → ZoneState × List TouchReport
debounce zone raw_touched now z =
    let ctr = (z.debounce_ctr + 1) % 256 in
    let held : TouchReport = record {
      zone = zone;
      touched = false;
      duration_ms = sub32 now z.touch_start_ms;
      timestamp_ms = now;
    } in
    let flipped : ZoneState = record z { touched = raw_touched; debounce_ctr = 0 } in
    if same raw_touched z.touched
    then (record z { debounce_ctr = 0 }, [])
    else if leb debounce_count ctr
    then if raw_touched then (record flipped { touch_start_ms = now }, []) else (flipped, held ∷ [])
    else (record z { debounce_ctr = ctr }, [])

-- "Long-press detection".
unfoldable pub long_press : TouchZone → (now : ℕ) → ZoneState → List TouchReport
long_press zone now z =
    let held = sub32 now z.touch_start_ms in
    if z.touched && (ltb long_press_ms held && ltb (held % 200) 20)
    then record { zone = zone; touched = true; duration_ms = held; timestamp_ms = now } ∷ []
    else []

-- "Slowly adapt baseline".
unfoldable pub adapt : ℕ → ZoneState → ZoneState
adapt raw z =
    if not z.touched && ltb z.baseline raw
    then record z { baseline = (z.baseline + 1) % 65536 }
    else z

-- A pad's share of a round of `task_touch`, for a threshold: the state and the events sent.
unfoldable pub pad_step :
    TouchZone → (threshold : ℕ) → PadReading → ZoneState → ZoneState × List TouchReport
pad_step zone threshold r z =
    let raw_touched = ltb r.raw threshold in
    let (z', released) = debounce zone raw_touched r.at_change (record z { raw_value = r.raw }) in
    (adapt r.raw z', released ++ long_press zone r.at_hold z')

-- `(uint16_t)(baseline * TOUCH_THRESHOLD_FACTOR)`.
unfoldable pub threshold_of : {F : Type 0} → FloatOps F → ℕ → ℕ
threshold_of fl baseline = fl.to_int (fl.times (fl.of_int baseline) (fl.literal 65 100)) % 65536

unfoldable pub pad_round :
    {F : Type 0}
    → FloatOps F
    → TouchZone
    → Option PadReading
    → ZoneState
    → ZoneState × List TouchReport
pad_round fl zone none z = (z, [])
pad_round fl zone (some r) z = pad_step zone (threshold_of fl z.baseline) r z
