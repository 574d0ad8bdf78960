-- ===== src/Behavior/Modes.antt =====
-- Which mode the behaviour engine is in after a tick: firmware/components/behavior/behavior.c.
use companion_robot.Base.{
  ℕ, ◌≡◌, Bool, true, false, not, ◌&&◌, ltb, if◌then◌else◌, sub32, [], ◌∷◌, refl, sym, ap, arith,
  Bool-cases, inl, inr, ◌∙◌,
}
use companion_robot.Behavior.Engine.{
  servo_set_angle, servo_pan, servo_tilt, exploring_behavior, BehaviorState, behavior_idle,
  exploring, interacting, seeking_charge, playing, alert, error_state, Engine, TickInputs,
  same_behavior, is_critical, transition_to, do_acts, idle_animation, is_touched, engage, is_low,
  is_charged, interact, act_in, override, behavior_tick,
}

-- The mode after a tick with neither critical power nor an emergency.
unfoldable pub calm_policy : BehaviorState → TickInputs → Engine → BehaviorState
calm_policy behavior_idle i e = if is_touched i.touch then interacting else behavior_idle
calm_policy exploring i e =
    if is_low i.power then seeking_charge else if is_touched i.touch then interacting else exploring
calm_policy interacting i e =
    if not (is_touched i.touch) && ltb 30000 (sub32 i.now e.last_interaction_ms)
    then behavior_idle
    else interacting
calm_policy seeking_charge i e = if is_charged i.power then behavior_idle else seeking_charge
calm_policy playing i e =
    if ltb 10000 (sub32 i.now e.state_entered_ms) then behavior_idle else playing
calm_policy alert i e = behavior_idle
calm_policy error_state i e =
    if ltb 5000 (sub32 i.now e.state_entered_ms) then behavior_idle else error_state

unfoldable pub mode_policy : TickInputs → Engine → BehaviorState
unfolding calm_policy
mode_policy i e =
    if is_critical i.power
    then seeking_charge
    else if i.emergency
    then alert
    else calm_policy e.state i e

same_behavior_sound : (a b : BehaviorState) → same_behavior a b ≡ true → a ≡ b
unfolding same_behavior
same_behavior_sound a b h = ground arith

transition_state : (now : ℕ) (to : BehaviorState) (e : Engine) → (transition_to now to e).state ≡ to
unfolding transition_to
transition_state now to e = elim (Bool-cases (same_behavior to e.state)) [
  | inl h ↦ rw h (sym (same_behavior_sound to e.state h))
  | inr h ↦ rw h refl
]

leave :
    (t : Bool) (now : ℕ) (to s : BehaviorState) (e : Engine)
    → e.state ≡ s
    → (if t then transition_to now to e else e).state ≡ (if t then to else s)
leave true now to s e h = transition_state now to e
leave false now to s e h = h

engage_state :
    (i : TickInputs) (e : Engine)
    → (engage i e).state ≡ (if is_touched i.touch then interacting else e.state)
unfolding engage
engage_state i e = elim (Bool-cases (is_touched i.touch)) [
  | inl h ↦ rw h (transition_state i.now interacting (record e { last_interaction_ms = i.now }))
  | inr h ↦ rw h refl
]

idle_animation_state : (i : TickInputs) (e : Engine) → (idle_animation i e).state ≡ e.state
unfolding idle_animation
idle_animation_state i e = ground arith

sub32_self : (a : ℕ) → sub32 a a ≡ 0
sub32_self a = omega arith

interact_state :
    (i : TickInputs) (e : Engine)
    → e.state ≡ interacting
    → (interact i e).state ≡ (
        if not (is_touched i.touch) && ltb 30000 (sub32 i.now e.last_interaction_ms)
        then behavior_idle
        else interacting)
unfolding interact
interact_state i e s = elim (Bool-cases (is_touched i.touch)) [
  | inl h ↦ rw (h, sub32_self i.now) s
  | inr h ↦ rw h (elim (Bool-cases (ltb 30000 (sub32 i.now e.last_interaction_ms))) [
    | inl l ↦ rw l (
        transition_state i.now behavior_idle
          (do_acts (servo_set_angle servo_pan 0 30 ∷ servo_set_angle servo_tilt 0 30 ∷ []) e))
    | inr l ↦ rw l s
  ])
]

act_in_state :
    (s : BehaviorState) (i : TickInputs) (e : Engine)
    → e.state ≡ s
    → is_critical i.power ≡ false
    → i.emergency ≡ false
    → (act_in s i e).state ≡ calm_policy s i e
unfolding act_in calm_policy
act_in_state behavior_idle i e s c f =
    engage_state i (idle_animation i e)
    ∙ ap (λ x. if is_touched i.touch then interacting else x) (idle_animation_state i e ∙ s)
act_in_state exploring i e s c f =
    let e' = engage i (do_acts (exploring_behavior i.obstacle) e) in
    leave (is_low i.power) i.now seeking_charge
      (if is_touched i.touch then interacting else exploring) e'
      (engage_state i (do_acts (exploring_behavior i.obstacle) e)
        ∙ ap (λ x. if is_touched i.touch then interacting else x) s)
act_in_state interacting i e s c f = interact_state i e s
act_in_state seeking_charge i e s c f =
    leave (is_charged i.power) i.now behavior_idle seeking_charge e s
act_in_state playing i e s c f =
    leave (ltb 10000 (sub32 i.now e.state_entered_ms)) i.now behavior_idle playing e s
act_in_state alert i e s c f = rw (c, f) (transition_state i.now behavior_idle e)
act_in_state error_state i e s c f =
    leave (ltb 5000 (sub32 i.now e.state_entered_ms)) i.now behavior_idle error_state e s

enter :
    (now : ℕ) (to : BehaviorState) (e : Engine)
    → (if not (same_behavior e.state to) then transition_to now to e else e).state ≡ to
enter now to e = elim (Bool-cases (same_behavior e.state to)) [
  | inl h ↦ rw h (same_behavior_sound e.state to h)
  | inr h ↦ rw h (transition_state now to e)
]

and_false : (b : Bool) → (b && false) ≡ false
and_false true = refl
and_false false = refl

and_true : (b : Bool) → (b && true) ≡ b
and_true true = refl
and_true false = refl

pub override_calm :
    (i : TickInputs) (e : Engine)
    → is_critical i.power ≡ false
    → i.emergency ≡ false
    → override i e ≡ e
unfolding override
override_calm i e c f = rw (c, f) refl

override_critical :
    (i : TickInputs) (e : Engine)
    → is_critical i.power ≡ true
    → (override i e).state ≡ seeking_charge
unfolding override
override_critical i e c = simp (c, and_false) (enter i.now seeking_charge e)

pub override_emergency :
    (i : TickInputs) (e : Engine)
    → is_critical i.power ≡ false
    → i.emergency ≡ true
    → (override i e).state ≡ alert
unfolding override
override_emergency i e c f = simp (c, f, and_true) (enter i.now alert e)

critical_stays :
    (i : TickInputs) (e : Engine)
    → is_critical i.power ≡ true
    → e.state ≡ seeking_charge
    → (act_in seeking_charge i e).state ≡ seeking_charge
unfolding act_in is_critical is_charged
critical_stays i e c s = ground arith

alert_stays :
    (i : TickInputs) (e : Engine)
    → i.emergency ≡ true
    → e.state ≡ alert
    → (act_in alert i e).state ≡ alert
unfolding act_in
alert_stays i e f s = rw f s

-- The modes that look at the touch pads.
unfoldable pub listens : BehaviorState → Bool
listens behavior_idle = true
listens exploring = true
listens interacting = true
listens seeking_charge = false
listens playing = false
listens alert = false
listens error_state = false

-- The time of the last interaction after a tick.
unfoldable pub quiet_policy : TickInputs → Engine → ℕ
unfolding listens
quiet_policy i e =
    if not (is_critical i.power) && (not i.emergency && (is_touched i.touch && listens e.state))
    then i.now
    else e.last_interaction_ms

transition_quiet :
    (now : ℕ) (to : BehaviorState) (e : Engine)
    → (transition_to now to e).last_interaction_ms ≡ e.last_interaction_ms
unfolding transition_to
transition_quiet now to e = ground arith

when_quiet :
    (t : Bool) (now : ℕ) (to : BehaviorState) (e : Engine)
    → (if t then transition_to now to e else e).last_interaction_ms ≡ e.last_interaction_ms
when_quiet true now to e = transition_quiet now to e
when_quiet false now to e = refl

idle_animation_quiet :
    (i : TickInputs) (e : Engine) → (idle_animation i e).last_interaction_ms ≡ e.last_interaction_ms
unfolding idle_animation
idle_animation_quiet i e = ground arith

abbrev heard : TickInputs → ℕ → ℕ
heard i last = if is_touched i.touch then i.now else last

engage_quiet :
    (i : TickInputs) (e : Engine) → (engage i e).last_interaction_ms ≡ heard i e.last_interaction_ms
unfolding engage
engage_quiet i e = elim (Bool-cases (is_touched i.touch)) [
  | inl h ↦ rw h (transition_quiet i.now interacting (record e { last_interaction_ms = i.now }))
  | inr h ↦ rw h refl
]

interact_quiet :
    (i : TickInputs) (e : Engine)
    → (interact i e).last_interaction_ms ≡ heard i e.last_interaction_ms
unfolding interact transition_to
interact_quiet i e = ground arith

act_in_quiet :
    (s : BehaviorState) (i : TickInputs) (e : Engine)
    → (act_in s i e).last_interaction_ms
      ≡ (if is_touched i.touch && listens s then i.now else e.last_interaction_ms)
unfolding act_in listens
act_in_quiet behavior_idle i e =
    simp and_true (engage_quiet i (idle_animation i e) ∙ ap (heard i) (idle_animation_quiet i e))
act_in_quiet exploring i e =
    let e' = engage i (do_acts (exploring_behavior i.obstacle) e) in
    simp and_true (
      when_quiet (is_low i.power) i.now seeking_charge e'
      ∙ engage_quiet i (do_acts (exploring_behavior i.obstacle) e))
act_in_quiet interacting i e = simp and_true (interact_quiet i e)
act_in_quiet seeking_charge i e =
    simp and_false (when_quiet (is_charged i.power) i.now behavior_idle e)
act_in_quiet playing i e =
    simp and_false (when_quiet (ltb 10000 (sub32 i.now e.state_entered_ms)) i.now behavior_idle e)
act_in_quiet alert i e =
    simp and_false (when_quiet (not i.emergency && not (is_critical i.power)) i.now behavior_idle e)
act_in_quiet error_state i e =
    simp and_false (when_quiet (ltb 5000 (sub32 i.now e.state_entered_ms)) i.now behavior_idle e)

override_quiet :
    (i : TickInputs) (e : Engine) → (override i e).last_interaction_ms ≡ e.last_interaction_ms
unfolding override transition_to
override_quiet i e = ground arith

tick_quiet :
    (i : TickInputs) (e : Engine) → (behavior_tick i e).last_interaction_ms ≡ quiet_policy i e
unfolding behavior_tick quiet_policy listens
tick_quiet i e =
    act_in_quiet (override i e).state i (override i e) ∙ (elim (Bool-cases (is_critical i.power)) [
      | inl c ↦ simp (override_critical i e c, override_quiet i e, c, and_false) refl
      | inr c ↦ elim (Bool-cases i.emergency) [
        | inl f ↦ simp (override_emergency i e c f, override_quiet i e, c, f, and_false) refl
        | inr f ↦ simp (override_calm i e c f, c, f) refl
      ]
    ])

tick_mode : (i : TickInputs) (e : Engine) → (behavior_tick i e).state ≡ mode_policy i e
unfolding behavior_tick mode_policy
tick_mode i e = elim (Bool-cases (is_critical i.power)) [
  | inl c ↦ let s = override_critical i e c in simp (s, c) (critical_stays i (override i e) c s)
  | inr c ↦ rw c (elim (Bool-cases i.emergency) [
    | inl f ↦ let s = override_emergency i e c f in simp (s, f) (alert_stays i (override i e) f s)
    | inr f ↦ simp (override_calm i e c f, f) (act_in_state e.state i e refl c f)
  ])
]

-- The mode after a tick: critical power comes first and sends the robot to the charger from every
-- mode; then an emergency makes it alert; else the mode's own rule decides, by which an interaction
-- ends after 30 s of quiet. A touch restarts that time exactly in a tick of the idle, exploring or
-- interacting mode with neither critical power nor an emergency.
pub behavior_tick-policy :
    (i : TickInputs) (e : Engine)
    → ((behavior_tick i e).state ≡ mode_policy i e)
      × ((behavior_tick i e).last_interaction_ms ≡ quiet_policy i e)
behavior_tick-policy i e = (tick_mode i e, tick_quiet i e)
