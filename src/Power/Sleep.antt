-- ===== src/Power/Sleep.antt =====
-- Sleep: power_mgr.c escalates from activity to light sleep, and never to deep sleep while polls
-- come at least every half hour.
use companion_robot.Base.{
  ℕ, ◌*◌, ◌%◌, ◌<◌, ◌≤◌, ◌≡◌, ◌≢◌, ◌⊎◌, inl, inr, refl, Bool, true, false, List, [], ◌∷◌, sub32,
  arith,
}
use companion_robot.Power.Battery.{Battery}
use companion_robot.Power.Manager.{
  SleepLevel, light, deep, RtcData, PowerMgr, PollInputs, awake, goes_on, falls_asleep,
  power_mgr_init, enter_deep_sleep, settle, escalate, detect_activity, poll, run_polls,
}
use companion_robot.Power.States.{Escalation-cases}

abbrev is_resting : SleepLevel → Bool
is_resting light = true
is_resting deep = true
is_resting _ = false

-- At time `t` the last activity is at most half an hour ago, and no sleep is under way.
record IsFresh (s : PowerMgr) (t : ℕ) : Type 0 where
  clock : t < 4294967296
  last : s.last_activity_ms < 4294967296
  recent : sub32 t s.last_activity_ms ≤ 1800000
  wakeful : is_resting s.sleep_level ≡ false

-- A poll's clock readings: in range, the first at most half an hour after `t`.
abbrev pub ComesBy : ℕ → PollInputs → Type 0
ComesBy t i = (sub32 i.now t ≤ 1800000) × (i.now < 4294967296) × (i.woke < 4294967296)

detect_activity-IsFresh :
    (s : PowerMgr) (i : PollInputs) (t : ℕ)
    → IsFresh s t
    → ComesBy t i
    → let s' = detect_activity s i in
      (s'.last_activity_ms < 4294967296)
      × (sub32 i.now s'.last_activity_ms ≤ 3600000)
      × (is_resting s'.sleep_level ≡ false)
unfolding detect_activity
detect_activity-IsFresh s i t h c = ground arith

start-IsFresh :
    (rtc : RtcData) (bat : Battery) (docked : Bool) (now : ℕ)
    → now < 4294967296
    → IsFresh (power_mgr_init rtc bat docked now) now
unfolding power_mgr_init
start-IsFresh rtc bat docked now h = ground arith

module _ (s : PowerMgr) (i : PollInputs) (a : s.last_activity_ms < 4294967296)
    (b : sub32 i.now s.last_activity_ms ≤ 3600000) (c : is_resting s.sleep_level ≡ false)
    (d : i.now < 4294967296) (e : i.woke < 4294967296) where
  escalate_awake : (r : RtcData) → escalate s i ≢ falls_asleep r
  unfolding escalate
  escalate_awake r h = ground arith

  escalate-IsFresh :
      (s' : PowerMgr) (t : ℕ)
      → escalate s i ≡ goes_on s' t
      → ((t ≡ i.now) ⊎ (t ≡ i.woke)) × IsFresh s' t
  unfolding escalate
  escalate-IsFresh s' t h = ground arith

settle-IsFresh : (s : PowerMgr) (i : PollInputs) (t : ℕ) → IsFresh s t → IsFresh (settle s i t) t
unfolding settle
settle-IsFresh s i t h = ground arith

-- One poll on time: awake, and fresh at the poll's last clock reading.
poll_on_time :
    (s : PowerMgr) (i : PollInputs) (t : ℕ)
    → IsFresh s t
    → ComesBy t i
    → (s' : PowerMgr) × (t' : ℕ) × (poll s i ≡ awake s')
      × ((t' ≡ i.now) ⊎ (t' ≡ i.woke))
      × IsFresh s' t'
unfolding poll
poll_on_time s i t h c =
    let (a, b, w) = detect_activity-IsFresh s i t h c in
    elim (Escalation-cases (escalate (detect_activity s i) i)) [
      | inl (u, t', e) ↦
          let (clock, fresh) = escalate-IsFresh (detect_activity s i) i a b w c.1 c.2 u t' e in
          rw e (settle u i t', t', refl, clock, settle-IsFresh u i t' fresh)
      | inr (r, e) ↦ absurd (escalate_awake (detect_activity s i) i a b w c.1 c.2 r e)
    ]

-- Each poll's first clock reading is at most half an hour after every reading of the poll before,
-- and the first poll's at most half an hour after `t`. Differences are those of `uint32_t`.
abbrev pub OnTime : ℕ → List PollInputs → Type 0
OnTime t [] = Unit {0}
OnTime t (i ∷ is) = ComesBy t i × OnTime i.now is × OnTime i.woke is

run_polls-OnTime :
    (is : List PollInputs) (s : PowerMgr) (t : ℕ)
    → IsFresh s t
    → OnTime t is
    → (s' : PowerMgr) × (run_polls s is ≡ awake s')
unfolding run_polls
run_polls-OnTime [] s t h o = (s, refl)
run_polls-OnTime (i ∷ is) s t h (c, on, ow) =
    let (s', t', e, clock, fresh) = poll_on_time s i t h c in
    let o : OnTime t' is = elim clock [ inl p ↦ rw p on | inr p ↦ rw p ow ] in
    rw (e, run_polls) (run_polls-OnTime is s' t' fresh o)

-- Deep sleep is never entered while polls come at least every half hour: from start-up, any number
-- of polls on time leaves the manager awake, whatever battery, dock and command queue do. Light
-- sleep, which comes after half an hour, counts as activity, so the hour that deep sleep waits for
-- never passes.
pub deep_sleep_unreachable :
    (rtc : RtcData) (bat : Battery) (docked : Bool) (now : ℕ) (is : List PollInputs)
    → now < 4294967296
    → OnTime now is
    → (s : PowerMgr) × (run_polls (power_mgr_init rtc bat docked now) is ≡ awake s)
deep_sleep_unreachable rtc bat docked now is h o =
    run_polls-OnTime is (power_mgr_init rtc bat docked now) now (start-IsFresh rtc bat docked now h)
      o

-- A restart after deep sleep followed by another deep sleep, with no light sleep between, doubles
-- the sleep total in RTC memory: the total read back at start-up is added to itself.
deep_sleep_doubles :
    (rtc : RtcData) (bat bat' : Battery) (docked : Bool) (now : ℕ)
    → rtc.magic ≡ 0xb007
    → (enter_deep_sleep (power_mgr_init rtc bat docked now) bat').total_sleep_ms
      ≡ (2 * rtc.total_sleep_ms) % 4294967296
unfolding power_mgr_init enter_deep_sleep
deep_sleep_doubles rtc bat bat' docked now h = ground arith
