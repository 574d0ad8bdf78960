-- ===== src/Motion/MotorCtl.antt =====
-- The decisions of the motor task: firmware/components/motion/motor.c. The wheel speeds,
-- floating-point sums of the direction or the pose, are those of `wheel_tick` (Motion/Wheels); a
-- tick here ends with what the wheels are told to do.
use companion_robot.Base.{
  ℕ, Bool, true, false, not, ◌&&◌, Option, none, some, ltb, leb, ◌==◌, if◌then◌else◌, add32, List,
  [], ◌∷◌,
}

abbrev pub bcp_dir_stop : ℕ
bcp_dir_stop = 6

-- `motor_cmd_t`, with the member that its type selects.
pub data MotorCmd : Type 0 where
  move : (direction speed duration_ms : ℕ) → MotorCmd
  move_to : (x_cm y_cm speed : ℕ) → MotorCmd
  stop : MotorCmd

-- What the wheels were last told: `brake_all`, or the loop over the wheels with the speeds of
-- `target`.
pub data Wheels : Type 0 where
  braked resting : Wheels
  navigating : (speed : ℕ) (slowed : Bool) → Wheels
  following : (direction speed : ℕ) (slowed : Bool) → Wheels

-- The globals of motor.c.
pub record Motor : Type 0 where
  pub current_direction : ℕ
  pub current_speed : ℕ
  pub cmd_active : Bool
  pub cmd_end_tick : ℕ
  pub emergency_stop : Bool
  pub move_to_active : Bool
  pub target_x : ℕ
  pub target_y : ℕ
  pub target_speed : ℕ
  pub wheels : Wheels

-- The globals are zeroed, and `motor_init` resets the flags and the duty cycles.
unfoldable pub motor_init : Motor
motor_init = record {
  current_direction = 0;
  current_speed = 0;
  cmd_active = false;
  cmd_end_tick = 0;
  emergency_stop = false;
  move_to_active = false;
  target_x = 0;
  target_y = 0;
  target_speed = 0;
  wheels = resting;
}

abbrev pub brake_all : Motor → Motor
brake_all m = record m { wheels = braked }

unfoldable pub motor_move_to : ℕ → ℕ → ℕ → Motor → Motor
motor_move_to x y speed m = record m {
  target_x = x;
  target_y = y;
  target_speed = speed;
  move_to_active = true;
  cmd_active = false;
}

unfoldable pub motor_cancel_move_to : Motor → Motor
motor_cancel_move_to m =
    if m.move_to_active then brake_all (record m { move_to_active = false }) else m

-- The distance to the target: no pose, closer than 3 cm, or farther.
pub data Nav : Type 0 where
  no_pose arrived away : Nav

-- What a tick reads: the queue, the tick count after it, the two flags of `obstacle_check`, the
-- tick count at the test of the duration, and the pose.
pub record MotorInputs : Type 0 where
  pub incoming : Option MotorCmd
  pub at_receive : ℕ
  pub emergency : Bool
  pub slow_down : Bool
  pub at_expiry : ℕ
  pub nav : Nav

-- The parameter is FreeRTOS's `pdMS_TO_TICKS`.
unfoldable pub receive : (ℕ → ℕ) → Option MotorCmd → ℕ → Motor → Motor
receive ms_to_ticks none now m = m
receive ms_to_ticks (some stop) now m =
    brake_all (record m { cmd_active = false; move_to_active = false })
receive ms_to_ticks (some (move_to x y speed)) now m = motor_move_to x y speed m
receive ms_to_ticks (some (move direction speed duration)) now m = record m {
  current_direction = direction;
  current_speed = speed;
  cmd_active = true;
  move_to_active = false;
  cmd_end_tick = if ltb 0 duration then add32 now (ms_to_ticks duration) else 0;
}

unfoldable pub watch_emergency : Bool → Motor → Motor
watch_emergency true m =
    if m.emergency_stop
    then m
    else brake_all (record m { emergency_stop = true; move_to_active = false; cmd_active = false })
watch_emergency false m = record m { emergency_stop = false }

unfoldable pub expire : ℕ → Motor → Motor
expire now m =
    if m.cmd_active && (ltb 0 m.cmd_end_tick && leb m.cmd_end_tick now)
    then record m { cmd_active = false }
    else m

unfoldable pub navigate : Nav → Bool → Motor → Motor
navigate no_pose slow m = record m { wheels = resting }
navigate arrived slow m = record m { move_to_active = false; wheels = resting }
navigate away slow m = record m { wheels = navigating m.target_speed slow }

unfoldable pub drive : Nav → Bool → Motor → Motor
drive nav slow m =
    if m.move_to_active
    then navigate nav slow m
    else if m.cmd_active && not (m.current_direction == bcp_dir_stop)
    then record m { wheels = following m.current_direction m.current_speed slow }
    else record m { wheels = resting }

-- A round of `task_motor_ctrl`.
unfoldable pub motor_tick : (ℕ → ℕ) → MotorInputs → Motor → Motor
motor_tick ms_to_ticks i m =
    let m' = watch_emergency i.emergency (receive ms_to_ticks i.incoming i.at_receive m) in
    if m'.emergency_stop then m' else drive i.nav i.slow_down (expire i.at_expiry m')

-- Rounds of the task in turn.
unfoldable pub run_ticks : (ℕ → ℕ) → List MotorInputs → Motor → Motor
run_ticks ticks [] m = m
run_ticks ticks (i ∷ is) m = run_ticks ticks is (motor_tick ticks i m)
