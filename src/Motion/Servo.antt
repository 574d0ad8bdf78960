-- ===== src/Motion/Servo.antt =====
-- The two head servos: firmware/components/motion/servo.c. Angles are `int16_t`.
use companion_robot.Base.{ℕ, ◌+◌, ◌-◌, ◌*◌, ◌/◌, ◌%◌, Bool, true, false, ltb, ◌==◌, if◌then◌else◌}
use companion_robot.Base.Float.{FloatOps}
use companion_robot.Base.Int.{ℤ, pos, negsuc, ◌+ℤ◌, ◌-ℤ◌, ltb_ℤ, int16}
use companion_robot.Behavior.Engine.{Servo, servo_pan, servo_tilt}

abbrev pub min_deg : Servo → ℤ
min_deg servo_pan = negsuc 89
min_deg servo_tilt = negsuc 44

abbrev pub max_deg : Servo → ℤ
max_deg servo_pan = pos 90
max_deg servo_tilt = pos 45

-- `servo_state_t`, and the duty that the channel was last given.
pub record ServoState : Type 0 where
  pub current_angle : ℤ
  pub target_angle : ℤ
  pub speed_dps : ℕ
  pub active : Bool
  pub duty : ℕ

unfoldable pub clamp_angle : Servo → ℤ → ℤ
clamp_angle id angle =
    if ltb_ℤ (max_deg id) angle
    then max_deg id
    else if ltb_ℤ angle (min_deg id)
    then min_deg id
    else angle

-- `(uint32_t)(2000 * normalized / 180)`; the division is rounded towards 0.
abbrev pub pulse_offset : ℤ → ℕ
pulse_offset (pos n) = 2000 * n / 180 % 4294967296
pulse_offset (negsuc n) = (4294967296 - 2000 * (n + 1) / 180) % 4294967296

unfoldable pub angle_to_duty : ℤ → ℕ
angle_to_duty angle =
    let normalized = int16 (angle +ℤ pos 90) in
    let pulse_us = (500 + pulse_offset normalized) % 4294967296 in
    pulse_us * 16383 / 20000 % 4294967296

unfoldable pub set_pwm : Servo → ℤ → ServoState → ServoState
set_pwm id angle s = record s { duty = angle_to_duty (clamp_angle id angle) }

-- A servo's share of `servo_init`.
unfoldable pub servo_init : ServoState
servo_init = record {
  current_angle = pos 0;
  target_angle = pos 0;
  speed_dps = 0;
  active = false;
  duty = angle_to_duty (pos 0);
}

unfoldable pub servo_set_angle : Servo → (angle_deg : ℤ) → (speed_dps : ℕ) → ServoState → ServoState
servo_set_angle id angle_deg speed_dps s =
    let clamped = clamp_angle id angle_deg in
    if speed_dps == 0
    then set_pwm id clamped
        (record s { current_angle = clamped; target_angle = clamped; active = false })
    else record s { target_angle = clamped; speed_dps = speed_dps; active = true }

-- `current` after a step of at most `max_step` towards `target`.
unfoldable pub ramp : (max_step : ℕ) → (current target : ℤ) → ℤ
ramp max_step current target =
    let up = int16 (current +ℤ pos max_step) in
    let down = int16 (current -ℤ pos max_step) in
    if ltb_ℤ current target
    then if ltb_ℤ target up then target else up
    else if ltb_ℤ target current
    then if ltb_ℤ down target then target else down
    else current

abbrev pub equal_ℤ : ℤ → ℤ → Bool
equal_ℤ a b = if ltb_ℤ a b then false else if ltb_ℤ b a then false else true

-- A servo's share of a round of `task_servo_ctrl`, with the step that its speed gives.
unfoldable pub servo_step : Servo → (max_step : ℕ) → ServoState → ServoState
servo_step id max_step s =
    let current = ramp max_step s.current_angle s.target_angle in
    let s' = set_pwm id current (record s { current_angle = current }) in
    if s.active
    then record s' { active = if equal_ℤ current s.target_angle then false else true }
    else s

-- `(int16_t)(speed_dps * dt)` with the test behind it.
unfoldable pub step_of : {F : Type 0} → FloatOps F → ℕ → ℕ
step_of fl speed =
    let step = fl.to_int (fl.times (fl.of_int speed) (fl.literal 2 100)) in
    if ltb step 1 then 1 else step

-- A round of `task_servo_ctrl` for a servo.
unfoldable pub servo_round : {F : Type 0} → FloatOps F → Servo → ServoState → ServoState
servo_round fl id s = servo_step id (step_of fl s.speed_dps) s
