-- ===== src/Examples/Robot.antt =====
-- Obstacles, motors and behaviour on concrete inputs, with one tick per millisecond.
use companion_robot.Base.{
  ℕ, ◌≡◌, ◌⊎◌, refl, sym, Bool, true, false, Option, none, some, [], ◌∷◌, arith,
}
use companion_robot.Motion.Obstacle.{
  TofReading, ObstacleStatus, obstacle_init, obstacle_check, in_slow_zone,
}
use companion_robot.Motion.Hysteresis.{
  obstacle_init-AllCounting, seen, in_front, second_check_flags, rear_always_stops,
}
use companion_robot.Motion.MotorCtl.{
  MotorCmd, move, Motor, motor_init, braked, resting, MotorInputs, no_pose, motor_tick, run_ticks,
}
use companion_robot.Motion.MotorSafety.{
  IsConsistent, motor_init-IsConsistent, motor_tick-IsConsistent, robot_stays_braked,
}
use companion_robot.Motion.Timed.{timed_move_ends}
use companion_robot.Power.Manager.{PowerState, normal}
use companion_robot.Behavior.Engine.{
  Engine, TickInputs, behavior_idle, behavior_start, behavior_tick,
}
use companion_robot.Behavior.Modes.{mode_policy, quiet_policy, behavior_tick-policy}

abbrev reading : ℕ → ℕ → TofReading
reading a b = record { mm0 = a; mm1 = b; mm2 = 900 }

second_check_flags_example :
    let second =
      (obstacle_check
        (obstacle_check obstacle_init (some (reading 290 800)) 1).0
        (some (reading 280 800))
        2).1 in
    (second.emergency_stop ≡ true)
    × (second.slow_down ≡ in_front in_slow_zone (seen (reading 290 800)) (seen (reading 280 800)))
second_check_flags_example =
    second_check_flags obstacle_init (reading 290 800) (reading 280 800) 1 2
      obstacle_init-AllCounting

abbrev same_ticks : ℕ → ℕ
same_ticks n = n

abbrev motor_inputs : Option MotorCmd → ℕ → Bool → MotorInputs
motor_inputs c t e = record {
  incoming = c;
  at_receive = t;
  emergency = e;
  slow_down = false;
  at_expiry = t;
  nav = no_pose;
}

motor_tick-IsConsistent_example :
    IsConsistent (motor_tick same_ticks (motor_inputs (some (move 0 60 500)) 10 false) motor_init)
motor_tick-IsConsistent_example =
    motor_tick-IsConsistent same_ticks (motor_inputs (some (move 0 60 500)) 10 false) motor_init
      motor_init-IsConsistent

robot_stays_braked_example :
    (motor_tick same_ticks (motor_inputs (some (move 0 60 500)) 10 true) motor_init).wheels ≡ braked
robot_stays_braked_example =
    robot_stays_braked same_ticks (motor_inputs (some (move 0 60 500)) 10 true) motor_init
      obstacle_init (reading 900 900) (reading 900 900) 1 2 motor_init-IsConsistent
      obstacle_init-AllCounting
      (sym (
        rear_always_stops obstacle_init (reading 900 900) (reading 900 900) 1 2
          obstacle_init-AllCounting))

abbrev stopped : Motor
stopped = record {
  current_direction = 0;
  current_speed = 0;
  cmd_active = false;
  cmd_end_tick = 0;
  emergency_stop = true;
  move_to_active = false;
  target_x = 0;
  target_y = 0;
  target_speed = 0;
  wheels = braked;
}

timed_move_ends_example :
    let after = motor_tick same_ticks (motor_inputs none 510 false) (
      run_ticks same_ticks
        (motor_inputs none 400 false ∷ [])
        (motor_tick same_ticks (motor_inputs (some (move 0 60 500)) 10 false) motor_init)) in
    (after.wheels ≡ braked) ⊎ (after.wheels ≡ resting)
timed_move_ends_example =
    timed_move_ends same_ticks (motor_inputs (some (move 0 60 500)) 10 false)
      (motor_inputs none 400 false ∷ []) (motor_inputs none 510 false) motor_init 0 60 500
      motor_init-IsConsistent refl (omega arith) (refl, tt) refl (omega arith) (omega arith)

abbrev calm_obstacle : ObstacleStatus
calm_obstacle = record {
  distance_cm = record { front = 90; front_left = 90; front_right = 90; rear = 90 };
  emergency_stop = false;
  slow_down = false;
  timestamp_ms = 0;
}

abbrev tick_inputs : PowerState → Bool → TickInputs
tick_inputs p e = record {
  now = 100;
  touch = none;
  power = p;
  emergency = e;
  obstacle = calm_obstacle;
  action = 3;
  argument = 0;
  delay = 0;
}

behavior_tick-policy_example :
    ((behavior_tick (tick_inputs normal true) (behavior_start 5)).state
      ≡ mode_policy (tick_inputs normal true) (behavior_start 5))
    × ((behavior_tick (tick_inputs normal true) (behavior_start 5)).last_interaction_ms
        ≡ quiet_policy (tick_inputs normal true) (behavior_start 5))
behavior_tick-policy_example = behavior_tick-policy (tick_inputs normal true) (behavior_start 5)

abbrev idling : Engine
idling = record {
  state = behavior_idle;
  prev_state = behavior_idle;
  state_entered_ms = 0;
  last_interaction_ms = 0;
  next_idle_action_ms = 0;
  acts = [];
}
