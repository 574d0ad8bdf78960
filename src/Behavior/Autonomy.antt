-- ===== src/Behavior/Autonomy.antt =====
-- The task of the offline mode: firmware/components/behavior/offline.c.
use companion_robot.Base.{
  ℕ, some, ◌+◌, ◌%◌, ◌≡◌, refl, ap, ◌∙◌, Bool, true, false, List, [], ◌∷◌, ◌++◌, ◌==◌,
  if◌then◌else◌, arith, ◌⊎◌,
}
use mathlib.Core.List.{append-nil}
use companion_robot.Behavior.Engine.{blinking, sleepy, neutral}
use companion_robot.Motion.MotorCtl.{MotorCmd, move, stop}
use companion_robot.Motion.Obstacle.{Dirs, Zone, TofReading, ObstacleStatus, obstacle_check}
use companion_robot.Motion.Hysteresis.{AllCounting, rear_always_stops}
use companion_robot.Behavior.Offline.{
  Offline, OfflineInputs, bit, OfflineAct, send_motor, led_off, led_set_solid, led_set_pattern,
  face_set_expression, log_sensor_data, is_offline, activate, stop_at_obstacle, write_log,
  log_periodically, explore, deactivate, offline_round, bcp_dir_forward, bcp_dir_rotate_left,
  bcp_dir_rotate_right,
}

-- The commands among the calls.
unfoldable pub motor_cmds : List OfflineAct → List MotorCmd
motor_cmds [] = []
motor_cmds (send_motor c ∷ as') = c ∷ motor_cmds as'
motor_cmds (led_off ∷ as') = motor_cmds as'
motor_cmds (led_set_solid _ _ _ ∷ as') = motor_cmds as'
motor_cmds (led_set_pattern _ _ _ _ _ ∷ as') = motor_cmds as'
motor_cmds (face_set_expression _ ∷ as') = motor_cmds as'
motor_cmds (log_sensor_data _ _ _ _ _ _ ∷ as') = motor_cmds as'

motor_cmds-append :
    (xs ys : List OfflineAct) → motor_cmds (xs ++ ys) ≡ motor_cmds xs ++ motor_cmds ys
unfolding motor_cmds
motor_cmds-append [] ys = refl
motor_cmds-append (send_motor c ∷ xs) ys = ap (◌∷◌ c) (motor_cmds-append xs ys)
motor_cmds-append (led_off ∷ xs) ys = motor_cmds-append xs ys
motor_cmds-append (led_set_solid _ _ _ ∷ xs) ys = motor_cmds-append xs ys
motor_cmds-append (led_set_pattern _ _ _ _ _ ∷ xs) ys = motor_cmds-append xs ys
motor_cmds-append (face_set_expression _ ∷ xs) ys = motor_cmds-append xs ys
motor_cmds-append (log_sensor_data _ _ _ _ _ _ ∷ xs) ys = motor_cmds-append xs ys

motor_cmds-append_quiet :
    (as' : List OfflineAct) (a : OfflineAct)
    → motor_cmds (a ∷ []) ≡ []
    → motor_cmds (as' ++ (a ∷ [])) ≡ motor_cmds as'
motor_cmds-append_quiet as' a h =
    motor_cmds-append as' (a ∷ []) ∙ ap (◌++◌ (motor_cmds as')) h ∙ append-nil (motor_cmds as')

activate_lem :
    (now : ℕ) (s : Offline)
    → ((activate now s).is_active ≡ true)
      × (motor_cmds (activate now s).acts ≡ motor_cmds s.acts)
      × ((activate now s).explore_counter ≡ s.explore_counter)
unfolding activate motor_cmds
activate_lem now s = ground (
  arith,
  motor_cmds-append_quiet (s.acts ++ (led_set_pattern blinking 50 255 165 0 ∷ []))
      (face_set_expression sleepy) refl,
  motor_cmds-append_quiet s.acts (led_set_pattern blinking 50 255 165 0) refl,
)

log_lem :
    (i : OfflineInputs) (s : Offline)
    → ((log_periodically i s).is_active ≡ s.is_active)
      × (motor_cmds (log_periodically i s).acts ≡ motor_cmds s.acts)
      × ((log_periodically i s).explore_counter ≡ s.explore_counter)
unfolding log_periodically write_log motor_cmds
log_lem i s = ground (
  arith,
  motor_cmds-append_quiet s.acts
      (log_sensor_data i.now (bit i.logged_obstacle.emergency_stop)
        (bit i.logged_obstacle.slow_down) i.logged_obstacle.distance_cm.front
        i.logged_obstacle.distance_cm.front_left i.logged_obstacle.distance_cm.front_right)
      refl,
)

stop_lem :
    (e : Bool) (s : Offline)
    → ((stop_at_obstacle e s).is_active ≡ s.is_active)
      × (motor_cmds (stop_at_obstacle e s).acts
          ≡ motor_cmds s.acts ++ (if e then stop ∷ [] else []))
      × ((stop_at_obstacle e s).explore_counter ≡ s.explore_counter)
unfolding stop_at_obstacle motor_cmds
stop_lem e s =
    ground (arith, motor_cmds-append s.acts (send_motor stop ∷ []), append-nil (motor_cmds s.acts))

-- The command of the `n`-th round without an obstacle, from 0: every 101st turns.
unfoldable pub roaming_cmd : Bool → ℕ → MotorCmd
roaming_cmd coin n =
    if (n % 101) == 100
    then move (if coin then bcp_dir_rotate_left else bcp_dir_rotate_right) 30 500
    else move bcp_dir_forward 20 0

-- A round with an obstacle, in the offline state.
blocked_round :
    (s : Offline) (i : OfflineInputs)
    → is_offline i.conn ≡ true
    → i.obstacle.emergency_stop ≡ true
    → motor_cmds (offline_round s i).acts ≡ motor_cmds s.acts ++ (stop ∷ [])
unfolding offline_round
blocked_round s i c e = ground (
  arith,
  activate_lem i.now s,
  stop_lem i.obstacle.emergency_stop (activate i.now s),
  log_lem i (stop_at_obstacle i.obstacle.emergency_stop (activate i.now s)),
)

explore_active : (coin : Bool) (s : Offline) → (explore coin s).is_active ≡ s.is_active
unfolding explore
explore_active coin s = ground arith

-- After every round the mode is on exactly if the connection manager is in its offline state. A
-- round that finds another state sends a stop if it leaves the mode, and no motor command if the
-- mode was off.
mode_follows :
    (s : Offline) (i : OfflineInputs)
    → ((offline_round s i).is_active ≡ is_offline i.conn)
      × ((is_offline i.conn ≡ true)
          ⊎ (motor_cmds (offline_round s i).acts
              ≡ motor_cmds s.acts ++ (if s.is_active then stop ∷ [] else [])))
unfolding offline_round deactivate motor_cmds
mode_follows s i =
    let s1 = activate i.now s in
    let s2 = stop_at_obstacle i.obstacle.emergency_stop s1 in
    let s3 = log_periodically i s2 in
    ground (
      arith,
      activate_lem i.now s,
      stop_lem i.obstacle.emergency_stop s1,
      log_lem i s2,
      explore_active i.coin s3,
      motor_cmds-append
          ((s.acts ++ (led_set_solid 0 0 20 ∷ [])) ++ (face_set_expression neutral ∷ []))
          (send_motor stop ∷ []),
      motor_cmds-append_quiet (s.acts ++ (led_set_solid 0 0 20 ∷ [])) (face_set_expression neutral)
          refl,
      motor_cmds-append_quiet s.acts (led_set_solid 0 0 20) refl,
      append-nil (motor_cmds s.acts),
    )

-- The commands of rounds without an obstacle, from the `n`-th on.
abbrev pub roaming_cmds : ℕ → List OfflineInputs → List MotorCmd
roaming_cmds n [] = []
roaming_cmds n (i ∷ is) = roaming_cmd i.coin n ∷ roaming_cmds (n + 1) is

-- The connection manager is offline and there is no obstacle.
abbrev pub IsClear : OfflineInputs → Type 0
IsClear i = (is_offline i.conn ≡ true) × (i.obstacle.emergency_stop ≡ false)

-- Whatever the three distance sensors read, the offline robot does not roam: in a round after two
-- successful checks in turn by the obstacle detection, the only motor command is a stop.
offline_stands_still :
    (z : Dirs Zone) (t u : TofReading) (m n : ℕ) (s : Offline) (i : OfflineInputs)
    → AllCounting z
    → is_offline i.conn ≡ true
    → i.obstacle ≡ (obstacle_check (obstacle_check z (some t) m).0 (some u) n).1
    → motor_cmds (offline_round s i).acts ≡ motor_cmds s.acts ++ (stop ∷ [])
offline_stands_still z t u m n s i h c o =
    blocked_round s i c
      (ap (λ (x : ObstacleStatus). x.emergency_stop) o ∙ rear_always_stops z t u m n h)
