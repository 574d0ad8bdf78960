-- ===== src/Motion/ServoSafety.antt =====
-- The limits of the head servos: firmware/components/motion/servo.c.
use companion_robot.Base.{
  ℕ, sym, subst, Bool-cases, ◌==◌, ◌+◌, ◌-◌, ◌≤◌, ◌≡◌, ◌⊎◌, inl, inr, refl, true, false, arith,
  if◌then◌else◌,
}
use companion_robot.Base.Int.{
  ℤ, pos, negsuc, above, below, ◌+ℤ◌, ◌-ℤ◌, ◌≤ℤ◌, int16, int16_small, +ℤ_parts, -ℤ_parts, +ℤ_le,
  -ℤ_le, parts_injective,
}
use companion_robot.Behavior.Engine.{Servo, servo_pan, servo_tilt}
use companion_robot.Motion.Servo.{
  min_deg, max_deg, ServoState, clamp_angle, angle_to_duty, set_pwm, servo_set_angle, ramp,
  servo_step, servo_init, equal_ℤ,
}

-- An angle within a servo's limits.
pub record IsWithin (id : Servo) (a : ℤ) : Type 0 where
  pub low : min_deg id ≤ℤ a
  pub high : a ≤ℤ max_deg id

pub clamp_angle-IsWithin : (id : Servo) (a : ℤ) → IsWithin id (clamp_angle id a)
unfolding clamp_angle
clamp_angle-IsWithin servo_pan (pos n) = ground arith
clamp_angle-IsWithin servo_pan (negsuc n) = ground arith
clamp_angle-IsWithin servo_tilt (pos n) = ground arith
clamp_angle-IsWithin servo_tilt (negsuc n) = ground arith

pub duty_within :
    (id : Servo) (a : ℤ) → IsWithin id a → (409 ≤ angle_to_duty a) × (angle_to_duty a ≤ 2047)
unfolding angle_to_duty int16 ◌+ℤ◌
duty_within servo_pan (pos n) h = ground arith
duty_within servo_pan (negsuc n) h = ground arith
duty_within servo_tilt (pos n) h = ground arith
duty_within servo_tilt (negsuc n) h = ground arith

-- The distance of two angles.
abbrev pub distance : ℤ → ℤ → ℕ
distance a b =
    (above a + below b) - (above b + below a) + ((above b + below a) - (above a + below b))

within_small : (id : Servo) (a : ℤ) → IsWithin id a → (above a ≤ 90) × (below a ≤ 90)
within_small servo_pan a h = ground arith
within_small servo_tilt a h = ground arith

up_lem :
    (id : Servo) (step : ℕ) (c : ℤ)
    → step ≤ 32000
    → IsWithin id c
    → int16 (c +ℤ pos step) ≡ c +ℤ pos step
up_lem id step c s h =
    let small = within_small id c h in
    let le = +ℤ_le c (pos step) in
    int16_small (c +ℤ pos step) (omega (arith, small.0, le.0)) (omega (arith, small.1, le.1))

down_lem :
    (id : Servo) (step : ℕ) (c : ℤ)
    → step ≤ 32000
    → IsWithin id c
    → int16 (c -ℤ pos step) ≡ c -ℤ pos step
down_lem id step c s h =
    let small = within_small id c h in
    let le = -ℤ_le c (pos step) in
    int16_small (c -ℤ pos step) (omega (arith, small.0, le.0)) (omega (arith, small.1, le.1))

-- A step comes nearer by its length, and at most up to the target.
pub ramp-distance :
    (id : Servo) (step : ℕ) (c t : ℤ)
    → step ≤ 32000
    → IsWithin id c
    → IsWithin id t
    → distance (ramp step c t) t ≡ distance c t - step
unfolding ramp
ramp-distance id step c t s h k =
    rw (up_lem id step c s h, down_lem id step c s h)
      (ground (arith, +ℤ_parts c (pos step), -ℤ_parts c (pos step)))

pub ramp-IsWithin :
    (id : Servo) (step : ℕ) (c t : ℤ)
    → step ≤ 32000
    → IsWithin id c
    → IsWithin id t
    → IsWithin id (ramp step c t)
unfolding ramp
ramp-IsWithin id step c t s h k =
    rw (up_lem id step c s h, down_lem id step c s h)
      (ground (arith, +ℤ_parts c (pos step), -ℤ_parts c (pos step)))

-- A servo's state as the code keeps it: angles within the limits, a servo at rest on its target, and
-- a duty for a pulse of 500 to 2500 microseconds.
pub record IsSafe (id : Servo) (s : ServoState) : Type 0 where
  pub current_within : IsWithin id s.current_angle
  pub target_within : IsWithin id s.target_angle
  pub at_rest : (s.active ≡ true) ⊎ (s.current_angle ≡ s.target_angle)
  pub duty_low : 409 ≤ s.duty
  pub duty_high : s.duty ≤ 2047

pub servo_init-IsSafe : (id : Servo) → IsSafe id servo_init
unfolding servo_init angle_to_duty int16 ◌+ℤ◌
servo_init-IsSafe servo_pan = ground arith
servo_init-IsSafe servo_tilt = ground arith

set_duty :
    (id : Servo) (a : ℤ)
    → (409 ≤ angle_to_duty (clamp_angle id a)) × (angle_to_duty (clamp_angle id a) ≤ 2047)
set_duty id a = duty_within id (clamp_angle id a) (clamp_angle-IsWithin id a)

set_angle-IsSafe :
    (id : Servo) (angle : ℤ) (speed : ℕ) (s : ServoState)
    → IsSafe id s
    → IsSafe id (servo_set_angle id angle speed s)
unfolding servo_set_angle set_pwm
set_angle-IsSafe id angle speed s h =
    let within = clamp_angle-IsWithin id angle in
    let duty = set_duty id (clamp_angle id angle) in
    elim (Bool-cases (speed == 0)) [
      | inl now ↦ rw now (record {
        current_within = within;
        target_within = within;
        at_rest = inr refl;
        duty_low = duty.0;
        duty_high = duty.1;
      })
      | inr later ↦ rw later (record {
        current_within = h.current_within;
        target_within = within;
        at_rest = inl refl;
        duty_low = h.duty_low;
        duty_high = h.duty_high;
      })
    ]

pub equal_sound : (a b : ℤ) → equal_ℤ a b ≡ true → a ≡ b
equal_sound a b h = parts_injective a b (ground arith)

pub equal_of_near : (a b : ℤ) → distance a b ≡ 0 → equal_ℤ a b ≡ true
equal_of_near a b h = ground arith

-- The state after a step of a moving servo.
abbrev pub stepped : Servo → ℕ → ServoState → ServoState
stepped id step s =
    let current = ramp step s.current_angle s.target_angle in
    record s {
      current_angle = current;
      active = if equal_ℤ current s.target_angle then false else true;
      duty = angle_to_duty (clamp_angle id current);
    }

pub step-stepped :
    (id : Servo) (step : ℕ) (s : ServoState)
    → s.active ≡ true
    → servo_step id step s ≡ stepped id step s
unfolding servo_step set_pwm
step-stepped id step s h = simp h refl

pub step_rests :
    (id : Servo) (step : ℕ) (s : ServoState) → s.active ≡ false → servo_step id step s ≡ s
unfolding servo_step
step_rests id step s h = simp h refl

pub stepped-IsSafe :
    (id : Servo) (step : ℕ) (s : ServoState)
    → step ≤ 32000
    → IsSafe id s
    → IsSafe id (stepped id step s)
stepped-IsSafe id step s k h =
    let current = ramp step s.current_angle s.target_angle in
    let duty = set_duty id current in
    record {
      current_within =
          ramp-IsWithin id step s.current_angle s.target_angle k h.current_within h.target_within;
      target_within = h.target_within;
      at_rest = elim (Bool-cases (equal_ℤ current s.target_angle)) [
        | inl e ↦ inr (equal_sound current s.target_angle e)
        | inr e ↦ inl (rw e refl)
      ];
      duty_low = duty.0;
      duty_high = duty.1;
    }

step-IsSafe :
    (id : Servo) (step : ℕ) (s : ServoState)
    → step ≤ 32000
    → IsSafe id s
    → IsSafe id (servo_step id step s)
step-IsSafe id step s k h = elim (Bool-cases s.active) [
  | inl e ↦ subst (IsSafe id) (sym (step-stepped id step s e)) (stepped-IsSafe id step s k h)
  | inr e ↦ subst (IsSafe id) (sym (step_rests id step s e)) h
]

-- Both operations keep the angles within the limits of the servo, the duty within that of a pulse
-- of 500 to 2500 microseconds, and a servo that is not moving on its target: setting any angle at
-- any speed, and a round of the task with any step up to 32000 degrees.
pub servo-IsSafe :
    (id : Servo) (angle : ℤ) (speed step : ℕ) (s : ServoState)
    → step ≤ 32000
    → IsSafe id s
    → IsSafe id (servo_set_angle id angle speed s) × IsSafe id (servo_step id step s)
servo-IsSafe id angle speed step s k h =
    (set_angle-IsSafe id angle speed s h, step-IsSafe id step s k h)
