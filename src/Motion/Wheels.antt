-- ===== src/Motion/Wheels.antt =====
-- The wheel speeds of the motor task: firmware/components/motion/motor.c, with the decisions of
-- Motion/MotorCtl. A `float` is a parameter, with its operations.
use mathlib.Core.Option
use companion_robot.Base.{ℕ, Bool, not, ◌&&◌, ◌||◌, Option, none, some, ◌==◌, if◌then◌else◌}
use companion_robot.Base.Float.{FloatOps, of_int16}
use companion_robot.Motion.MotorCtl.{
  MotorCmd, move, move_to, stop, Motor, MotorInputs, Nav, no_pose, arrived, away, bcp_dir_stop,
  receive, watch_emergency, expire, drive,
}
use companion_robot.Localization.Estimate.{Pose, wrap_yaw}

-- `pid_state_t`.
pub record Pid (F : Type 0) : Type 0 where
  pub integral : F
  pub prev_error : F
  pub setpoint : F

-- The duty cycles of the two channels of a motor.
pub record Pwm : Type 0 where
  pub in1 : ℕ
  pub in2 : ℕ

-- An array with an element for each motor.
pub record Four (A : Type 0) : Type 0 where
  pub l1 : A
  pub l2 : A
  pub r1 : A
  pub r2 : A

abbrev pub each : {A B : Type 0} → (A → B) → Four A → Four B
each f a = record { l1 = f a.l1; l2 = f a.l2; r1 = f a.r1; r2 = f a.r2 }

abbrev pub all_four : {A : Type 0} → A → Four A
all_four a = record { l1 = a; l2 = a; r1 = a; r2 = a }

-- `g_pid`, the duty cycles, and the memory of the distance controller.
pub record Drive (F : Type 0) : Type 0 where
  pub pid : Four (Pid F)
  pub pwm : Four Pwm
  pub move_to_integral : F
  pub move_to_prev_error : F

module _ {F : Type 0} (fl : FloatOps F) where
  abbrev pub lit : ℕ → ℕ → F
  lit n d = fl.literal n d

  abbrev pub zero_f : F
  zero_f = lit 0 1

  unfoldable pub clamp_f : (v lo hi : F) → F
  clamp_f v lo hi = if fl.less v lo then lo else if fl.less hi v then hi else v

  unfoldable pub set_motor_pwm : (duty : F) → Pwm
  set_motor_pwm duty =
      if fl.less (lit 1 100) duty
      then record { in1 = fl.to_int (fl.times duty (lit 1023 1)); in2 = 0 }
      else if fl.less duty (fl.negate (lit 1 100))
      then record { in1 = 0; in2 = fl.to_int (fl.times (fl.negate duty) (lit 1023 1)) }
      else record { in1 = 0; in2 = 0 }

  abbrev pub pid_reset : Pid F
  pid_reset = record { integral = zero_f; prev_error = zero_f; setpoint = zero_f }

  -- `brake_all`.
  unfoldable pub brake_wheels : Drive F → Drive F
  brake_wheels d = record d {
    pid = all_four pid_reset;
    pwm = all_four (record { in1 = 1023; in2 = 1023 });
  }

  -- "Normalize if any wheel exceeds 1.0".
  unfoldable pub normalize : Four F → Four F
  normalize w =
      let max_val =
        fl.fmaxf (fl.fmaxf (fl.fabsf w.l1) (fl.fabsf w.l2))
          (fl.fmaxf (fl.fabsf w.r1) (fl.fabsf w.r2)) in
      if fl.less (lit 1 1) max_val then each (λ x. fl.over x max_val) w else w

  unfoldable pub wheels_of : (vx vy omega : F) → Four F
  wheels_of vx vy omega =
      let turn = fl.times omega (lit 1 1) in
      record {
        l1 = fl.minus (fl.minus vx vy) turn;
        l2 = fl.minus (fl.plus vx vy) turn;
        r1 = fl.plus (fl.plus vx vy) turn;
        r2 = fl.plus (fl.minus vx vy) turn;
      }

  -- The directions of the switch, in the order of `bcp_direction_t`.
  unfoldable pub mecanum_kinematics : (direction : ℕ) → (speed : F) → Four F
  mecanum_kinematics dir speed =
      let o = zero_f in
      let back = fl.negate speed in
      normalize (
        if dir == 0
        then wheels_of speed o o
        else if dir == 1
        then wheels_of back o o
        else if dir == 2
        then wheels_of o speed o
        else if dir == 3
        then wheels_of o back o
        else if dir == 4
        then wheels_of o o speed
        else if dir == 5
        then wheels_of o o back
        else if dir == 7
        then wheels_of speed speed o
        else if dir == 8
        then wheels_of speed back o
        else if dir == 9
        then wheels_of back speed o
        else if dir == 10
        then wheels_of back back o
        else wheels_of o o o)

  abbrev pub dt : F
  dt = lit 1 100

  unfoldable pub pid_update : (measured : F) → Pid F → F × Pid F
  pid_update measured p =
      let error = fl.minus p.setpoint measured in
      let integral =
        clamp_f (fl.plus p.integral (fl.times error dt)) (fl.negate (lit 1 1)) (lit 1 1) in
      let derivative = fl.over (fl.minus error p.prev_error) dt in
      let out =
        fl.plus (fl.plus (fl.times (lit 5 10) error) (fl.times (lit 1 10) integral))
          (fl.times (lit 5 100) derivative) in
      (out, record p { integral = integral; prev_error = error })

  -- What the code takes for the speed of a wheel.
  unfoldable pub measured_for : (setpoint : F) → F
  measured_for setpoint =
      if fl.less (lit 1 100) setpoint || fl.less setpoint (fl.negate (lit 1 100))
      then fl.times setpoint (lit 9 10)
      else zero_f

  -- The body of the "PID loop for each wheel".
  unfoldable pub pid_wheel : (target : F) → Pid F → Pwm × Pid F
  pid_wheel target p =
      let (out, p') = pid_update (measured_for target) (record p { setpoint = target }) in
      (set_motor_pwm out, p')

  unfoldable pub pid_loop : Four F → Drive F → Drive F
  pid_loop target d =
      let a = pid_wheel target.l1 d.pid.l1 in
      let b = pid_wheel target.l2 d.pid.l2 in
      let c = pid_wheel target.r1 d.pid.r1 in
      let e = pid_wheel target.r2 d.pid.r2 in
      record d {
        pid = record { l1 = a.1; l2 = b.1; r1 = c.1; r2 = e.1 };
        pwm = record { l1 = a.0; l2 = b.0; r1 = c.0; r2 = e.0 };
      }

  abbrev pub distance_to : Motor → Pose F → F
  distance_to m p =
      let dx = fl.minus (of_int16 fl m.target_x) p.x_cm in
      let dy = fl.minus (of_int16 fl m.target_y) p.y_cm in
      fl.sqrtf (fl.plus (fl.times dx dx) (fl.times dy dy))

  unfoldable pub nav_of : Motor → Option (Pose F) → Nav
  nav_of m none = no_pose
  nav_of m (some p) = if fl.less (distance_to m p) (lit 3 1) then arrived else away

  -- `g_move_to_speed / 255.0f`, or that of a direction, within 0 and 1.
  abbrev pub speed_norm : ℕ → F
  speed_norm speed = clamp_f (fl.over (fl.of_int speed) (lit 255 1)) zero_f (lit 1 1)

  abbrev pub slowed : Bool → F → F
  slowed slow v = if slow then fl.times v (lit 5 10) else v

  -- The controller of the distance: its output, and its memory.
  unfoldable pub distance_pid : (dist : F) → Drive F → F × Drive F
  distance_pid dist d =
      let integral =
        clamp_f (fl.plus d.move_to_integral (fl.times dist dt)) (fl.negate (lit 2 1)) (lit 2 1) in
      let derivative = fl.over (fl.minus dist d.move_to_prev_error) dt in
      let sum =
        fl.plus (fl.plus (fl.times (lit 4 10) dist) (fl.times (lit 2 100) integral))
          (fl.times (lit 1 10) derivative) in
      (
        clamp_f sum zero_f (lit 8 10),
        record d { move_to_integral = integral; move_to_prev_error = dist },
      )

  -- The speeds toward the target of a `move_to`; `none` if the fuel of the wrapping loops runs out.
  unfoldable pub steer :
      (fuel : ℕ) → Motor → Pose F → (slow : Bool) → Drive F → Option (Four F × Drive F)
  steer fuel m p slow d =
      let dx = fl.minus (of_int16 fl m.target_x) p.x_cm in
      let dy = fl.minus (of_int16 fl m.target_y) p.y_cm in
      let target_yaw = fl.over (fl.times (fl.atan2f dy dx) (lit 180 1)) (lit 314159265 100000000) in
      let (dist_pid, d') = distance_pid (distance_to m p) d in
      let toward : F → Four F × Drive F = λ yaw_error.
        let part = fl.fminf (fl.over (fl.fabsf yaw_error) (lit 90 1)) (lit 1 1) in
        let vx =
          fl.times (fl.times dist_pid (fl.minus (lit 1 1) part)) (speed_norm m.target_speed) in
        let omega =
          fl.times (clamp_f (fl.over yaw_error (lit 90 1)) (fl.negate (lit 1 1)) (lit 1 1))
            (speed_norm m.target_speed) in
        let turn = fl.times (slowed slow omega) (lit 1 1) in
        let left = fl.minus (slowed slow vx) turn in
        let right = fl.plus (slowed slow vx) turn in
        (normalize (record { l1 = left; l2 = left; r1 = right; r2 = right }), d') in
      Option.map toward (wrap_yaw fl fuel (fl.minus target_yaw p.yaw_deg))

  -- "Position-based navigation using localization".
  unfoldable pub navigate_wheels :
      (fuel : ℕ) → Motor → Option (Pose F) → (slow : Bool) → Drive F → Option (Four F × Drive F)
  navigate_wheels fuel m none slow d = some (all_four zero_f, d)
  navigate_wheels fuel m (some p) slow d =
      let going = steer fuel m p slow d in
      if fl.less (distance_to m p) (lit 3 1) then some (all_four zero_f, brake_wheels d) else going

  -- "Compute target speeds".
  unfoldable pub target_speeds :
      (fuel : ℕ) → Motor → Option (Pose F) → (slow : Bool) → Drive F → Option (Four F × Drive F)
  target_speeds fuel m pose slow d =
      let navigated = navigate_wheels fuel m pose slow d in
      if m.move_to_active
      then navigated
      else if m.cmd_active && not (m.current_direction == bcp_dir_stop)
      then some
          (mecanum_kinematics m.current_direction (slowed slow (speed_norm m.current_speed)), d)
      else some (all_four zero_f, d)

  -- What a received command does to the wheels and to the memory of the controller.
  unfoldable pub receive_wheels : Option MotorCmd → Drive F → Drive F
  receive_wheels none d = d
  receive_wheels (some stop) d = brake_wheels d
  receive_wheels (some (move_to x y speed)) d = record d {
    move_to_integral = zero_f;
    move_to_prev_error = zero_f;
  }
  receive_wheels (some (move direction speed duration)) d = d

  -- The loop of the duration's end, before the targets are set.
  abbrev pub zero_setpoints : Drive F → Drive F
  zero_setpoints d = record d { pid = each (λ (p : Pid F). record p { setpoint = zero_f }) d.pid }

  -- A round of `task_motor_ctrl`; the pose is what `localization_get_pose` gives, and the field
  -- `nav` of the inputs is not looked at.
  unfoldable pub wheel_tick :
      (ms_to_ticks : ℕ → ℕ)
      → (fuel : ℕ) → MotorInputs
      → Option (Pose F)
      → Motor
      → Drive F
      → Option (Motor × Drive F)
  wheel_tick ms_to_ticks fuel i pose m d =
      let m1 = receive ms_to_ticks i.incoming i.at_receive m in
      let d1 = receive_wheels i.incoming d in
      let m2 = watch_emergency i.emergency m1 in
      let d2 = if i.emergency && not m1.emergency_stop then brake_wheels d1 else d1 in
      let m3 = expire i.at_expiry m2 in
      let d3 = if m2.cmd_active && not m3.cmd_active then zero_setpoints d2 else d2 in
      let targets = target_speeds fuel m3 pose i.slow_down d3 in
      let finish : Four F × Drive F → Motor × Drive F =
        λ t. (drive (nav_of m3 pose) i.slow_down m3, pid_loop t.0 t.1) in
      let driven = Option.map finish targets in if m2.emergency_stop then some (m2, d2) else driven
