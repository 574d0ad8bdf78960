-- ===== src/Behavior/Reach.antt =====
-- Which modes the behaviour engine can be in: firmware/components/behavior/behavior.c.
use companion_robot.Base.{
  ℕ, ◌≡◌, Bool, true, false, not, ◌&&◌, ltb, if◌then◌else◌, sub32, List, [], ◌∷◌, refl, sym, ap,
  subst, Bool-cases, inl, inr, ◌∙◌,
}
use companion_robot.Power.Manager.{normal, low_battery}
use companion_robot.Behavior.Engine.{
  BehaviorState, behavior_idle, interacting, seeking_charge, alert, Engine, TickInputs,
  same_behavior, is_critical, transition_to, idle_animation, is_touched, engage, is_charged,
  interact, act_in, override, behavior_tick, behavior_start, run_behavior,
}
use companion_robot.Behavior.Modes.{
  calm_policy, mode_policy, behavior_tick-policy, override_calm, override_emergency,
}

-- The modes that the running program is ever in.
pub data IsReached : BehaviorState → Type 0 where
  in_idle : IsReached behavior_idle
  in_interacting : IsReached interacting
  in_charge : IsReached seeking_charge
  in_alert : IsReached alert

if-IsReached :
    (t : Bool) (a b : BehaviorState) → IsReached a → IsReached b → IsReached (if t then a else b)
if-IsReached true a b h k = h
if-IsReached false a b h k = k

calm-IsReached :
    (s : BehaviorState) (i : TickInputs) (e : Engine) → IsReached s → IsReached (calm_policy s i e)
unfolding calm_policy
calm-IsReached _ i e in_idle =
    if-IsReached (is_touched i.touch) interacting behavior_idle in_interacting in_idle
calm-IsReached _ i e in_interacting =
    if-IsReached (not (is_touched i.touch) && ltb 30000 (sub32 i.now e.last_interaction_ms))
      behavior_idle interacting in_idle in_interacting
calm-IsReached _ i e in_charge =
    if-IsReached (is_charged i.power) behavior_idle seeking_charge in_idle in_charge
calm-IsReached _ i e in_alert = in_idle

tick-IsReached :
    (i : TickInputs) (e : Engine) → IsReached e.state → IsReached (behavior_tick i e).state
unfolding mode_policy
tick-IsReached i e h = subst IsReached (sym (behavior_tick-policy i e).0) (
    if-IsReached (is_critical i.power) seeking_charge
      (if i.emergency then alert else calm_policy e.state i e) in_charge
      (if-IsReached i.emergency alert (calm_policy e.state i e) in_alert
        (calm-IsReached e.state i e h)))

run-IsReached :
    (is : List TickInputs) (e : Engine) → IsReached e.state → IsReached (run_behavior is e).state
unfolding run_behavior
run-IsReached [] e h = h
run-IsReached (i ∷ is) e h = run-IsReached is (behavior_tick i e) (tick-IsReached i e h)

start-IsReached : (now : ℕ) → IsReached (behavior_start now).state
unfolding behavior_start transition_to same_behavior
start-IsReached now = in_idle

-- From the start of the task, whatever its inputs, the engine is idle, interacting, going to the
-- charger or alert: it never explores, plays, or is in the error mode, although those modes have
-- code.
unused_modes :
    (now : ℕ) (is : List TickInputs) → IsReached (run_behavior is (behavior_start now)).state
unused_modes now is = run-IsReached is (behavior_start now) (start-IsReached now)

not_low :
    (s : BehaviorState) (i j : TickInputs) (e : Engine)
    → IsReached s
    → i.power ≡ low_battery
    → j ≡ record i { power = normal }
    → act_in s i e ≡ act_in s j e
unfolding act_in is_charged is_critical interact engage idle_animation
not_low _ i j e in_idle p q = rw q refl
not_low _ i j e in_interacting p q = rw q refl
not_low _ i j e in_charge p q = rw (q, p) refl
not_low _ i j e in_alert p q = rw (q, p) refl

override_low :
    (i : TickInputs) (e : Engine)
    → i.power ≡ low_battery
    → override i e ≡ override (record i { power = normal }) e
unfolding override is_critical
override_low i e p = rw p refl

override-IsReached :
    (i : TickInputs) (e : Engine)
    → is_critical i.power ≡ false
    → IsReached e.state
    → IsReached (override i e).state
override-IsReached i e c h = elim (Bool-cases i.emergency) [
  | inl f ↦ subst IsReached (sym (override_emergency i e c f)) in_alert
  | inr f ↦ subst (λ (x : Engine). IsReached x.state) (sym (override_calm i e c f)) h
]

low_not_critical : (i : TickInputs) → i.power ≡ low_battery → is_critical i.power ≡ false
unfolding is_critical
low_not_critical i p = rw p refl

-- In every mode that the program is ever in, a low battery that is not yet critical changes
-- nothing: a tick gives the same state and the same calls as with a normal battery.
low_battery_ignored :
    (i : TickInputs) (e : Engine)
    → IsReached e.state
    → i.power ≡ low_battery
    → behavior_tick i e ≡ behavior_tick (record i { power = normal }) e
unfolding behavior_tick
low_battery_ignored i e h p =
    let j : TickInputs = record i { power = normal } in
    let k = override-IsReached i e (low_not_critical i p) h in
    not_low (override i e).state i j (override i e) k p refl
    ∙ ap (λ (x : Engine). act_in x.state j x) (override_low i e p)
