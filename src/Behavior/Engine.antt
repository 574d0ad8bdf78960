-- ===== src/Behavior/Engine.antt =====
-- A tick of the behaviour engine: firmware/components/behavior/behavior.c. An angle in degrees is
-- the 32-bit word of the C `int`.
use companion_robot.Base.{
  ℕ, ◌+◌, ◌%◌, Bool, true, false, not, ◌&&◌, Option, none, some, ltb, ◌==◌, if◌then◌else◌, add32,
  sub32, List, [], ◌∷◌, ◌++◌,
}
use companion_robot.Power.Manager.{
  PowerState, normal, low_battery, critical, charging, charged, fault,
}
use companion_robot.Motion.Obstacle.{Dirs, ObstacleStatus}
use companion_robot.Motion.MotorCtl.{MotorCmd, move}

-- `behavior_state_t`.
pub data BehaviorState : Type 0 where
  behavior_idle exploring interacting seeking_charge playing alert error_state : BehaviorState

pub data Face : Type 0 where
  neutral happy sleepy surprised angry : Face

pub data LedMode : Type 0 where
  breathing rainbow blinking : LedMode

pub data Servo : Type 0 where
  servo_pan servo_tilt : Servo

-- The calls that the engine makes into other components.
pub data Act : Type 0 where
  led_set_solid : (r g b : ℕ) → Act
  led_set_pattern : LedMode → (speed r g b : ℕ) → Act
  face_set_expression : Face → Act
  face_blink_tick : Act
  servo_set_angle : Servo → (angle speed : ℕ) → Act
  send_motor : MotorCmd → Act

-- `touch_zone_t`; the count of zones reaches only the default branch.
pub data TouchZone : Type 0 where
  head back left right zone_count : TouchZone

-- `touch_event_t`, the fields that are read.
pub record TouchEvent : Type 0 where
  pub zone : TouchZone
  pub touched : Bool

-- The globals of behavior.c, and the calls made so far, the latest last.
pub record Engine : Type 0 where
  pub state : BehaviorState
  pub prev_state : BehaviorState
  pub state_entered_ms : ℕ
  pub last_interaction_ms : ℕ
  pub next_idle_action_ms : ℕ
  pub acts : List Act

-- What a tick reads, the clock once; `action`, `argument` and `delay` are the results of the calls
-- of `rand`.
pub record TickInputs : Type 0 where
  pub now : ℕ
  pub touch : Option TouchEvent
  pub power : PowerState
  pub emergency : Bool
  pub obstacle : ObstacleStatus
  pub action : ℕ
  pub argument : ℕ
  pub delay : ℕ

unfoldable pub same_behavior : BehaviorState → BehaviorState → Bool
same_behavior behavior_idle behavior_idle = true
same_behavior exploring exploring = true
same_behavior interacting interacting = true
same_behavior seeking_charge seeking_charge = true
same_behavior playing playing = true
same_behavior alert alert = true
same_behavior error_state error_state = true
same_behavior _ _ = false

unfoldable pub is_critical : PowerState → Bool
is_critical critical = true
is_critical normal = false
is_critical low_battery = false
is_critical charging = false
is_critical charged = false
is_critical fault = false

-- The state entry actions.
unfoldable pub entry_acts : BehaviorState → List Act
entry_acts behavior_idle = led_set_solid 0 0 20 ∷ face_set_expression neutral ∷ []
entry_acts exploring = led_set_solid 0 20 0 ∷ face_set_expression neutral ∷ []
entry_acts interacting = led_set_solid 20 20 0 ∷ face_set_expression happy ∷ []
entry_acts seeking_charge = led_set_pattern breathing 20 0 0 50 ∷ face_set_expression sleepy ∷ []
entry_acts playing = led_set_pattern rainbow 80 255 255 255 ∷ face_set_expression happy ∷ []
entry_acts alert = led_set_pattern blinking 200 255 0 0 ∷ face_set_expression surprised ∷ []
entry_acts error_state = led_set_pattern blinking 100 255 0 0 ∷ face_set_expression angry ∷ []

abbrev pub do_acts : List Act → Engine → Engine
do_acts more e = record e { acts = e.acts ++ more }

unfoldable pub transition_to : ℕ → BehaviorState → Engine → Engine
transition_to now to e = if same_behavior to e.state then e else record e {
  prev_state = e.state;
  state = to;
  state_entered_ms = now;
  acts = e.acts ++ entry_acts to;
}

unfoldable pub idle_acts : ℕ → ℕ → List Act
idle_acts action argument =
    if action % 4 == 0
    then servo_set_angle servo_pan (sub32 (argument % 60) 30) 30 ∷ []
    else if action % 4 == 1
    then face_blink_tick ∷ []
    else if action % 4 == 2
    then led_set_pattern breathing 10 0 0 ((10 + argument % 20) % 256) ∷ []
    else []

unfoldable pub idle_animation : TickInputs → Engine → Engine
idle_animation i e =
    if ltb i.now e.next_idle_action_ms
    then e
    else record (do_acts (idle_acts i.action i.argument) e) {
      next_idle_action_ms = add32 i.now (5000 + i.delay % 5000);
    }

-- A step of the loop for the nearest direction: the distance and the command for the direction so
-- far, and one direction's distance and command.
unfoldable pub nearer : ℕ × List Act → ℕ → List Act → ℕ × List Act
nearer best d turn = if ltb 0 d && ltb d best.0 then (d, turn) else best

unfoldable pub turn_away : Dirs ℕ → List Act
turn_away d =
    let front = nearer (65535, []) d.front (send_motor (move 4 50 300) ∷ []) in
    let front_left = nearer front d.front_left (send_motor (move 5 50 200) ∷ []) in
    let front_right = nearer front_left d.front_right (send_motor (move 4 50 200) ∷ []) in
    (nearer front_right d.rear []).1

unfoldable pub exploring_behavior : ObstacleStatus → List Act
exploring_behavior o =
    if o.emergency_stop
    then send_motor (move 1 60 500) ∷ []
    else if o.slow_down
    then turn_away o.distance_cm
    else send_motor (move 0 30 0) ∷ []

-- `has_touch && touch_evt.touched`.
unfoldable pub is_touched : Option TouchEvent → Bool
is_touched none = false
is_touched (some t) = t.touched

unfoldable pub zone_acts : TouchZone → List Act
zone_acts head =
    face_set_expression happy
    ∷ led_set_solid 20 20 0
    ∷ servo_set_angle servo_tilt (sub32 0 10) 30
    ∷ []
zone_acts back = face_set_expression neutral ∷ []
zone_acts left = servo_set_angle servo_pan (sub32 0 30) 45 ∷ []
zone_acts right = servo_set_angle servo_pan 30 45 ∷ []
zone_acts zone_count = []

unfoldable pub touch_acts : Option TouchEvent → List Act
touch_acts none = []
touch_acts (some t) = zone_acts t.zone

-- "Touch → INTERACTING".
unfoldable pub engage : TickInputs → Engine → Engine
engage i e =
    if is_touched i.touch
    then transition_to i.now interacting (record e { last_interaction_ms = i.now })
    else e

unfoldable pub is_low : PowerState → Bool
is_low low_battery = true
is_low normal = false
is_low critical = false
is_low charging = false
is_low charged = false
is_low fault = false

unfoldable pub is_charged : PowerState → Bool
is_charged charged = true
is_charged normal = false
is_charged low_battery = false
is_charged critical = false
is_charged charging = false
is_charged fault = false

unfoldable pub interact : TickInputs → Engine → Engine
interact i e =
    let e' =
      if is_touched i.touch
      then do_acts (touch_acts i.touch) (record e { last_interaction_ms = i.now })
      else e in
    if ltb 30000 (sub32 i.now e'.last_interaction_ms)
    then transition_to i.now behavior_idle
        (do_acts (servo_set_angle servo_pan 0 30 ∷ servo_set_angle servo_tilt 0 30 ∷ []) e')
    else e'

-- `switch (g_state)` of the task.
unfoldable pub act_in : BehaviorState → TickInputs → Engine → Engine
act_in behavior_idle i e = engage i (idle_animation i e)
act_in exploring i e =
    let e' = engage i (do_acts (exploring_behavior i.obstacle) e) in
    if is_low i.power then transition_to i.now seeking_charge e' else e'
act_in interacting i e = interact i e
act_in seeking_charge i e = if is_charged i.power then transition_to i.now behavior_idle e else e
act_in playing i e =
    if ltb 10000 (sub32 i.now e.state_entered_ms) then transition_to i.now behavior_idle e else e
act_in alert i e =
    if not i.emergency && not (is_critical i.power) then transition_to i.now behavior_idle e else e
act_in error_state i e =
    if ltb 5000 (sub32 i.now e.state_entered_ms) then transition_to i.now behavior_idle e else e

-- The two global overrides.
unfoldable pub override : TickInputs → Engine → Engine
override i e =
    let e' =
      if is_critical i.power && not (same_behavior e.state seeking_charge)
      then transition_to i.now seeking_charge e
      else e in
    if i.emergency && (not (same_behavior e'.state alert) && not (is_critical i.power))
    then transition_to i.now alert e'
    else e'

-- A round of `task_behavior`.
unfoldable pub behavior_tick : TickInputs → Engine → Engine
behavior_tick i e = let e' = override i e in act_in e'.state i e'

unfoldable pub behavior_start : ℕ → Engine
behavior_start now = transition_to now behavior_idle (record {
  state = behavior_idle;
  prev_state = behavior_idle;
  state_entered_ms = now;
  last_interaction_ms = now;
  next_idle_action_ms = 0;
  acts = [];
})

unfoldable pub run_behavior : List TickInputs → Engine → Engine
run_behavior [] e = e
run_behavior (i ∷ is) e = run_behavior is (behavior_tick i e)
