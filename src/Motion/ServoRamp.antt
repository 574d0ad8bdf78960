-- ===== src/Motion/ServoRamp.antt =====
-- The ramps of the head servos: firmware/components/motion/servo.c.
use companion_robot.Base.{
  ℕ, zero, suc, sym, subst, Bool-cases, ◌*◌, ◌≤◌, ◌≡◌, ◌⊎◌, inl, inr, refl, ap, ◌∙◌, true, false,
  arith,
}
use companion_robot.Base.Float.{FloatOps}
use companion_robot.Base.Int.{ℤ}
use companion_robot.Motion.ServoSafety.{
  IsSafe, distance, stepped, ramp-distance, equal_sound, equal_of_near, step-stepped, step_rests,
  stepped-IsSafe,
}
use companion_robot.Behavior.Engine.{Servo}
use companion_robot.Motion.Servo.{ServoState, ramp, step_of, servo_round, equal_ℤ}

-- Rounds of the task in turn.
unfoldable pub run_servo : {F : Type 0} → FloatOps F → Servo → ℕ → ServoState → ServoState
run_servo fl id zero s = s
run_servo fl id (suc n) s = run_servo fl id n (servo_round fl id s)

run_rests :
    {F : Type 0} (fl : FloatOps F) (id : Servo) (n : ℕ) (s : ServoState)
    → s.active ≡ false
    → run_servo fl id n s ≡ s
unfolding run_servo servo_round
run_rests fl id zero s h = refl
run_rests fl id (suc n) s h =
    ap (run_servo fl id n) (step_rests id (step_of fl s.speed_dps) s h) ∙ run_rests fl id n s h

one_or_more : {F : Type 0} (fl : FloatOps F) (speed : ℕ) → 1 ≤ step_of fl speed
unfolding step_of
one_or_more fl speed = ground arith

-- A servo on its target that is not moving, now and after more rounds.
abbrev HasArrived : ServoState → ℤ → Type 0
HasArrived s t = (s.current_angle ≡ t) × (s.active ≡ false)

arrived_stays :
    {F : Type 0} (fl : FloatOps F) (id : Servo) (n : ℕ) (s : ServoState) (t : ℤ)
    → HasArrived s t
    → HasArrived (run_servo fl id n s) t
arrived_stays fl id n s t h =
    subst (λ (x : ServoState). HasArrived x t) (sym (run_rests fl id n s h.1)) h

equal-HasArrived :
    (id : Servo) (step : ℕ) (s : ServoState)
    → equal_ℤ (ramp step s.current_angle s.target_angle) s.target_angle ≡ true
    → HasArrived (stepped id step s) s.target_angle
equal-HasArrived id step s e =
    (equal_sound (ramp step s.current_angle s.target_angle) s.target_angle e, rw e refl)

-- What a round makes of a servo that is still, and of one that moves.
round_cases :
    {F : Type 0} (fl : FloatOps F) (id : Servo) (s : ServoState)
    → IsSafe id s
    → HasArrived (servo_round fl id s) s.target_angle
      ⊎ (servo_round fl id s ≡ stepped id (step_of fl s.speed_dps) s)
unfolding servo_round
round_cases fl id s h = elim (Bool-cases s.active) [
  | inl e ↦ inr (step-stepped id (step_of fl s.speed_dps) s e)
  | inr e ↦ inl (
      subst (λ (x : ServoState). HasArrived x s.target_angle)
        (sym (step_rests id (step_of fl s.speed_dps) s e)) (ground arith, e))
]

-- A moving servo arrives. With a step of at most 32000 degrees for its speed, it stands on its
-- target and is no longer moving after one round more than its distance has steps.
pub servo_arrives :
    {F : Type 0} (fl : FloatOps F) (id : Servo) (n : ℕ) (s : ServoState)
    → step_of fl s.speed_dps ≤ 32000
    → IsSafe id s
    → distance s.current_angle s.target_angle ≤ n * step_of fl s.speed_dps
    → ((run_servo fl id (suc n) s).current_angle ≡ s.target_angle)
      × ((run_servo fl id (suc n) s).active ≡ false)
unfolding run_servo
servo_arrives fl id zero s k h d = elim (round_cases fl id s h) [
  | inl arrived ↦ arrived
  | inr moved ↦
      subst (λ (x : ServoState). HasArrived x s.target_angle) (sym moved)
        (equal-HasArrived id (step_of fl s.speed_dps) s (
          equal_of_near (ramp (step_of fl s.speed_dps) s.current_angle s.target_angle)
            s.target_angle
            (omega (
              arith,
              ramp-distance id (step_of fl s.speed_dps) s.current_angle s.target_angle k
                  h.current_within h.target_within,
              d,
            ))))
]
servo_arrives fl id (suc n) s k h d = elim (round_cases fl id s h) [
  | inl arrived ↦ arrived_stays fl id (suc n) (servo_round fl id s) s.target_angle arrived
  | inr moved ↦
      subst (λ (x : ServoState). HasArrived (run_servo fl id (suc n) x) s.target_angle) (sym moved)
        (servo_arrives fl id n (stepped id (step_of fl s.speed_dps) s) k
          (stepped-IsSafe id (step_of fl s.speed_dps) s k h)
          (omega (
            arith,
            ramp-distance id (step_of fl s.speed_dps) s.current_angle s.target_angle k
                h.current_within h.target_within,
            d,
          )))
]
