-- ===== src/Power/States.antt =====
-- The power states: what a poll decides, and the event bits that other tasks read.
use companion_robot.Base.{
  ℕ, ◌≡◌, ◌≢◌, refl, Bool, true, false, List, [], ◌∷◌, ltb, if◌then◌else◌, arith, ap, sym, All, ◌∙◌,
  ◌⊎◌, inl, inr,
}
use companion_robot.Power.Battery.{Battery, FlagsAgree}
use companion_robot.Power.Manager.{
  PowerState, normal, low_battery, critical, charging, charged, fault, RtcData, PowerMgr,
  PollInputs, Poll, awake, asleep, Escalation, goes_on, falls_asleep, detect_activity,
  power_mgr_init, next_state, apply_state, update_bits, settle, escalate, poll, same_state,
  run_polls,
}

-- The policy that the header of power_mgr.c announces, on the percentage alone.
abbrev pub policy : Bool → ℕ → PowerState
policy true soc = if ltb soc 80 then charging else charged
policy false soc = if ltb soc 10 then critical else if ltb soc 20 then low_battery else normal

abbrev pub wants_emergency : PowerState → Bool
wants_emergency critical = true
wants_emergency fault = true
wants_emergency _ = false

abbrev pub wants_low_battery : PowerState → Bool
wants_low_battery low_battery = true
wants_low_battery critical = true
wants_low_battery _ = false

-- The event bits say what the state says.
pub record BitsAgree (s : PowerMgr) : Type 0 where
  pub emergency_agrees : s.evg_emergency ≡ wants_emergency s.state
  pub low_agrees : s.evg_low_battery ≡ wants_low_battery s.state

next_state-policy :
    (p : PowerState) (i : PollInputs)
    → FlagsAgree i.bat
    → p ≢ fault
    → next_state p i ≡ policy i.docked i.bat.soc_pct
unfolding next_state
next_state-policy normal i h n = ground arith
next_state-policy low_battery i h n = ground arith
next_state-policy critical i h n = ground arith
next_state-policy charging i h n = ground arith
next_state-policy charged i h n = ground arith
next_state-policy fault i h n = absurd (n refl)

policy-ne-fault : (d : Bool) (soc : ℕ) → policy d soc ≢ fault
policy-ne-fault d soc = ground arith

init-ne-fault :
    (rtc : RtcData) (bat : Battery) (docked : Bool) (now : ℕ)
    → (power_mgr_init rtc bat docked now).state ≢ fault
unfolding power_mgr_init
init-ne-fault rtc bat docked now = ground arith

Poll-cases : (p : Poll) → ((s : PowerMgr) × (p ≡ awake s)) ⊎ ((r : RtcData) × (p ≡ asleep r))
Poll-cases (awake s) = inl (s, refl)
Poll-cases (asleep r) = inr (r, refl)

-- What the last sections of a poll leave: the decided state with agreeing bits, the state left
-- behind, and the RTC memory untouched.
pub record Settled (s : PowerMgr) (new : PowerState) (s' : PowerMgr) : Type 0 where
  pub decided : s'.state ≡ new
  pub bits : s'.state ≢ fault → BitsAgree s'
  pub previous : s'.prev_state ≡ (if same_state new s.state then s.prev_state else s.state)
  pub rtc_kept : s'.rtc ≡ s.rtc

apply_state_lem :
    (s : PowerMgr) (new : PowerState) (now : ℕ)
    → Settled s new (update_bits (apply_state s new now))
unfolding apply_state update_bits
apply_state_lem s new now = ground arith

pub settle-Settled :
    (s : PowerMgr) (i : PollInputs) (now : ℕ) → Settled s (next_state s.state i) (settle s i now)
unfolding settle
settle-Settled s i now = apply_state_lem s (next_state s.state i) now

-- Settling after changes to the sleep fields only.
Settled-after :
    (s t : PowerMgr) (i : PollInputs) (now : ℕ)
    → t.state ≡ s.state
    → t.prev_state ≡ s.prev_state
    → t.rtc ≡ s.rtc
    → Settled s (next_state s.state i) (settle t i now)
Settled-after s t i now a b c =
    let h = settle-Settled t i now in
    record {
      decided = h.decided ∙ ap (λ p. next_state p i) a;
      bits = h.bits;
      previous = h.previous ∙ rw (a, b);
      rtc_kept = h.rtc_kept ∙ c;
    }

escalate_kept :
    (s : PowerMgr) (i : PollInputs) {t : PowerMgr} {now : ℕ}
    → escalate s i ≡ goes_on t now
    → (t.state ≡ s.state) × (t.prev_state ≡ s.prev_state) × (t.rtc ≡ s.rtc)
unfolding escalate
escalate_kept s i h = ground arith

detect_activity_kept :
    (s : PowerMgr) (i : PollInputs)
    → let t = detect_activity s i in
      (t.state ≡ s.state) × (t.prev_state ≡ s.prev_state) × (t.rtc ≡ s.rtc)
unfolding detect_activity
detect_activity_kept s i = ground arith

pub Escalation-cases :
    (e : Escalation)
    → ((t : PowerMgr) × (now : ℕ) × (e ≡ goes_on t now)) ⊎ ((r : RtcData) × (e ≡ falls_asleep r))
Escalation-cases (goes_on t now) = inl (t, now, refl)
Escalation-cases (falls_asleep r) = inr (r, refl)

-- A poll goes on from the state that the escalation hands over.
pub poll_goes_on :
    (s : PowerMgr) (i : PollInputs) {s' : PowerMgr}
    → poll s i ≡ awake s'
    → (t : PowerMgr) × (now : ℕ) × (escalate (detect_activity s i) i ≡ goes_on t now)
      × (s' ≡ settle t i now)
unfolding poll
poll_goes_on s i h = elim (Escalation-cases (escalate (detect_activity s i) i)) [
  | inl (t, now, e) ↦ (t, now, e, cc (rw e at h))
  | inr (r, e) ↦ cc (rw e at h)
]

-- A poll that does not fall into deep sleep settles on the state decided from the old one.
pub poll-Settled :
    (s : PowerMgr) (i : PollInputs) {s' : PowerMgr}
    → poll s i ≡ awake s'
    → Settled s (next_state s.state i) s'
poll-Settled s i h =
    let (t, now, e, to) = poll_goes_on s i h in
    let (a, b, c) = escalate_kept (detect_activity s i) i e in
    let (a', b', c') = detect_activity_kept s i in
    rw to (Settled-after s t i now (a ∙ a') (b ∙ b') (c ∙ c'))

-- Unless it ends in deep sleep, a poll from a state other than fault, with battery flags that agree
-- with the percentage, moves to the state that dock and percentage call for: docked, charged from
-- 80 percent on and charging below; undocked, critical below 10, low below 20, else normal. It
-- leaves the emergency bit set exactly in the critical state and the low-battery bit exactly in
-- the low and critical states.
pub poll-policy :
    (s : PowerMgr) (i : PollInputs) {s' : PowerMgr}
    → FlagsAgree i.bat
    → s.state ≢ fault
    → poll s i ≡ awake s'
    → (s'.state ≡ policy i.docked i.bat.soc_pct) × BitsAgree s'
poll-policy s i h n e =
    let p = poll-Settled s i e in
    let q = p.decided ∙ next_state-policy s.state i h n in
    (q, p.bits (λ f. policy-ne-fault i.docked i.bat.soc_pct (sym q ∙ f)))

run_polls-ne-fault :
    (is : List PollInputs) (s : PowerMgr) {s' : PowerMgr}
    → All (λ (i : PollInputs). FlagsAgree i.bat) is
    → s.state ≢ fault
    → run_polls s is ≡ awake s'
    → s'.state ≢ fault
unfolding run_polls
run_polls-ne-fault [] s {s' = s'} h n e = let e' : s ≡ s' = cc in rw e' at n
run_polls-ne-fault (i ∷ is) s (h, hs) n e = elim (Poll-cases (poll s i)) [
  | inl (t, p) ↦
      run_polls-ne-fault is t hs
        (λ f. policy-ne-fault i.docked i.bat.soc_pct (sym (poll-policy s i h n p).0 ∙ f))
        (rw (p, run_polls) at e)
  | inr (r, p) ↦ cc (rw (p, run_polls) at e)
]

-- The fault state is never entered: not at start-up, and not by any number of polls whose battery
-- flags agree with the percentage, whatever the dock, the command queue and the clock do.
fault_unreachable :
    (rtc : RtcData) (bat : Battery) (docked : Bool) (now : ℕ) (is : List PollInputs) {s' : PowerMgr}
    → All (λ (i : PollInputs). FlagsAgree i.bat) is
    → run_polls (power_mgr_init rtc bat docked now) is ≡ awake s'
    → s'.state ≢ fault
fault_unreachable rtc bat docked now is h e =
    run_polls-ne-fault is (power_mgr_init rtc bat docked now) h (init-ne-fault rtc bat docked now) e
