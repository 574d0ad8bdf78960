-- ===== src/Power/Manager.antt =====
-- The power manager: firmware/components/power/power_mgr.c.
-- All clock reads of one poll are the poll's `now`, but those after a light sleep are `woke`.
use companion_robot.Base.{
  List, [], ◌∷◌, ℕ, ◌+◌, ◌%◌, Bool, true, false, ◌&&◌, not, ltb, leb, ◌==◌, if◌then◌else◌, add32,
  sub32,
}
use companion_robot.Power.Battery.{Battery}

pub data PowerState : Type 0 where
  normal low_battery critical charging charged fault : PowerState

pub data SleepLevel : Type 0 where
  active idle light deep : SleepLevel

-- `rtc_data_t`, which survives deep sleep.
pub record RtcData : Type 0 where
  pub magic : ℕ
  pub boot_count : ℕ
  pub last_soc : ℕ
  pub total_sleep_ms : ℕ

-- The manager's globals and its two bits of the event group.
pub record PowerMgr : Type 0 where
  pub state : PowerState
  pub prev_state : PowerState
  pub sleep_level : SleepLevel
  pub last_activity_ms : ℕ
  pub entered_idle_ms : ℕ
  pub total_sleep_ms : ℕ
  pub rtc : RtcData
  pub evg_low_battery : Bool
  pub evg_emergency : Bool

-- What a poll reads: the battery, the dock, the command queue's length, the clock, and whether
-- `esp_light_sleep_start` succeeds if it is called.
pub record PollInputs : Type 0 where
  pub bat : Battery
  pub docked : Bool
  pub pending_msgs : ℕ
  pub now : ℕ
  pub light_sleep_ok : Bool
  pub woke : ℕ

-- A poll goes on, or the chip is in deep sleep with this RTC memory.
pub data Poll : Type 0 where
  awake : PowerMgr → Poll
  asleep : RtcData → Poll

abbrev pub rtc_data_magic : ℕ
rtc_data_magic = 0xb007

abbrev pub idle_timeout_ms : ℕ
idle_timeout_ms = 300000

abbrev pub light_sleep_timeout_ms : ℕ
light_sleep_timeout_ms = 1800000

abbrev pub deep_sleep_timeout_ms : ℕ
deep_sleep_timeout_ms = 3600000

abbrev pub light_sleep_wake_ms : ℕ
light_sleep_wake_ms = 5000

abbrev pub battery_exit_charge_pct : ℕ
battery_exit_charge_pct = 80

unfoldable pub report_activity : PowerMgr → ℕ → PowerMgr
report_activity s now = record s { last_activity_ms = now; sleep_level = active }

unfoldable pub is_idle : PowerMgr → ℕ → ℕ → Bool
is_idle s now timeout_ms = ltb timeout_ms (sub32 now s.last_activity_ms)

unfoldable pub enter_light_sleep : PowerMgr → Bool → ℕ → PowerMgr
enter_light_sleep s slept woke =
    let total = if slept then add32 s.total_sleep_ms light_sleep_wake_ms else s.total_sleep_ms in
    record s { total_sleep_ms = total; sleep_level = active; last_activity_ms = woke }

-- The RTC memory at `esp_deep_sleep_start`. The magic number is stored before it is tested.
unfoldable pub enter_deep_sleep : PowerMgr → Battery → RtcData
enter_deep_sleep s bat =
    let marked = record (s.rtc) { magic = rtc_data_magic } in
    record marked {
      boot_count = if marked.magic == rtc_data_magic then (marked.boot_count + 1) % 256 else 1;
      last_soc = bat.soc_pct;
      total_sleep_ms = add32 marked.total_sleep_ms s.total_sleep_ms;
    }

abbrev pub is_normal : PowerState → Bool
is_normal normal = true
is_normal _ = false

abbrev pub is_deep : SleepLevel → Bool
is_deep deep = true
is_deep _ = false

abbrev pub is_light : SleepLevel → Bool
is_light light = true
is_light _ = false

abbrev pub is_active : SleepLevel → Bool
is_active active = true
is_active _ = false

-- `power_mgr_init`. The first binding is the wake check, with the globals zero after a reset.
unfoldable pub power_mgr_init : RtcData → Battery → Bool → ℕ → PowerMgr
power_mgr_init rtc bat docked now =
    let woken = rtc.magic == rtc_data_magic in
    let state =
      if bat.critical
      then critical
      else if bat.low
      then low_battery
      else if docked
      then (if leb battery_exit_charge_pct bat.soc_pct then charged else charging)
      else normal in
    record {
      state = state;
      prev_state = state;
      sleep_level = active;
      last_activity_ms = now;
      entered_idle_ms = 0;
      total_sleep_ms = if woken then rtc.total_sleep_ms else 0;
      rtc =
          if woken
          then rtc
          else record { magic = 0; boot_count = 0; last_soc = 0; total_sleep_ms = 0 };
      evg_low_battery = false;
      evg_emergency = false;
    }

-- The section "State transitions".
next_normal : PollInputs → PowerState
next_normal i =
    if i.bat.critical && not i.docked
    then critical
    else if i.bat.low && (not i.bat.critical && not i.docked)
    then low_battery
    else if i.docked
    then (if leb battery_exit_charge_pct i.bat.soc_pct then charged else charging)
    else normal

unfoldable pub next_state : PowerState → PollInputs → PowerState
unfolding next_normal
next_state fault i = if not i.bat.critical && not i.docked then normal else fault
next_state _ i = next_normal i

abbrev pub same_state : PowerState → PowerState → Bool
same_state normal normal = true
same_state low_battery low_battery = true
same_state critical critical = true
same_state charging charging = true
same_state charged charged = true
same_state fault fault = true
same_state _ _ = false

-- The section "Apply state changes".
unfoldable pub apply_state : PowerMgr → PowerState → ℕ → PowerMgr
unfolding report_activity
apply_state s new now =
    if same_state new s.state
    then s
    else report_activity (record s { prev_state = s.state; state = new }) now

-- The section "Update event group bits".
bits_for : PowerState → PowerMgr → PowerMgr
bits_for low_battery s = record s { evg_low_battery = true; evg_emergency = false }
bits_for critical s = record s { evg_low_battery = true; evg_emergency = true }
bits_for fault s = record s { evg_emergency = true }
bits_for _ s = record s { evg_low_battery = false; evg_emergency = false }

unfoldable pub update_bits : PowerMgr → PowerMgr
unfolding bits_for
update_bits s = bits_for s.state s

-- The sections after the sleep escalation, at the clock's `now`.
unfoldable pub settle : PowerMgr → PollInputs → ℕ → PowerMgr
unfolding apply_state update_bits
settle s i now = update_bits (apply_state s (next_state s.state i) now)

-- The sleep escalation goes on with a state at a time, or ends in deep sleep.
pub data Escalation : Type 0 where
  goes_on : PowerMgr → ℕ → Escalation
  falls_asleep : RtcData → Escalation

-- The section "Idle to sleep escalation".
unfoldable pub escalate : PowerMgr → PollInputs → Escalation
unfolding report_activity is_idle enter_light_sleep enter_deep_sleep
escalate s i =
    if not i.docked && is_normal s.state
    then (if is_idle s i.now deep_sleep_timeout_ms && ltb i.bat.soc_pct 20
        then (if is_deep s.sleep_level
            then goes_on s i.now
            else falls_asleep (enter_deep_sleep s i.bat))
        else if is_idle s i.now light_sleep_timeout_ms
        then (if is_light s.sleep_level
            then goes_on s i.now
            else goes_on (enter_light_sleep s i.light_sleep_ok i.woke) i.woke)
        else if is_idle s i.now idle_timeout_ms && is_active s.sleep_level
        then goes_on (record s { sleep_level = idle; entered_idle_ms = i.now }) i.now
        else goes_on s i.now)
    else goes_on (report_activity s i.now) i.now

finish : PollInputs → Escalation → Poll
finish i (goes_on s now) = awake (settle s i now)
finish i (falls_asleep rtc) = asleep rtc

-- The section "Activity detection".
unfoldable pub detect_activity : PowerMgr → PollInputs → PowerMgr
unfolding report_activity
detect_activity s i = if ltb 0 i.pending_msgs then report_activity s i.now else s

-- One round of the loop of `task_power_mgr`.
unfoldable pub poll : PowerMgr → PollInputs → Poll
unfolding finish
poll s i = finish i (escalate (detect_activity s i) i)

-- The polls of `task_power_mgr` in turn, until deep sleep.
unfoldable pub run_polls : PowerMgr → List PollInputs → Poll
run_polls s [] = awake s
run_polls s (i ∷ is) = elim (poll s i) [ awake s' ↦ run_polls s' is | asleep rtc ↦ asleep rtc ]
