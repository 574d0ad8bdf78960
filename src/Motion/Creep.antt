-- ===== src/Motion/Creep.antt =====
-- What the wheels do when they should rest: firmware/components/motion/motor.c.
use companion_robot.Base.{
  ℕ, ◌≡◌, ◌<◌, ◌≤◌, refl, ap, ◌∙◌, true, false, Option, none, some, List, [], ◌∷◌, All, ltb, leb,
  ltb_of_lt, arith,
}
use companion_robot.Base.Float.{FloatOps}
use companion_robot.Motion.MotorCtl.{
  Motor, MotorInputs, resting, receive, watch_emergency, expire, drive,
}
use companion_robot.Localization.Estimate.{Pose}
use companion_robot.Motion.Wheels.{
  Pid, Pwm, Four, each, all_four, Drive, zero_f, lit, clamp_f, set_motor_pwm, pid_update,
  measured_for, pid_wheel, pid_loop, target_speeds, receive_wheels, zero_setpoints, wheel_tick, dt,
}

module _ {F : Type 0} (fl : FloatOps F) where
  -- What a float near zero does in the sums of the controller, for the zero and an integral `x`.
  pub record IsNeutral (x : F) : Type 0 where
    pub zero_zero : fl.minus (zero_f fl) (zero_f fl) ≡ zero_f fl
    pub not_fast : fl.less (lit fl 1 100) (zero_f fl) ≡ false
    pub not_back : fl.less (zero_f fl) (fl.negate (lit fl 1 100)) ≡ false
    pub zero_dt : fl.times (zero_f fl) (dt fl) ≡ zero_f fl
    pub zero_over : fl.over (zero_f fl) (dt fl) ≡ zero_f fl
    pub zero_kp : fl.times (lit fl 5 10) (zero_f fl) ≡ zero_f fl
    pub zero_kd : fl.times (lit fl 5 100) (zero_f fl) ≡ zero_f fl
    pub keeps : fl.plus x (zero_f fl) ≡ x
    pub not_below : fl.less x (fl.negate (lit fl 1 1)) ≡ false
    pub not_above : fl.less (lit fl 1 1) x ≡ false
    pub left : fl.plus (zero_f fl) (fl.times (lit fl 1 10) x) ≡ fl.times (lit fl 1 10) x
    pub right : fl.plus (fl.times (lit fl 1 10) x) (zero_f fl) ≡ fl.times (lit fl 1 10) x

  abbrev pub AllNeutral : Four F → Type 0
  AllNeutral x = IsNeutral x.l1 × IsNeutral x.l2 × IsNeutral x.r1 × IsNeutral x.r2

  -- A controller at rest with the integral `x`.
  abbrev pub at_rest : F → Pid F
  at_rest x = record { integral = x; prev_error = zero_f fl; setpoint = zero_f fl }

  -- The duty that the integral `x` alone gives.
  abbrev pub leftover : F → Pwm
  leftover x = set_motor_pwm fl (fl.times (lit fl 1 10) x)

  rest_wheel :
      (x : F) → IsNeutral x → pid_wheel fl (zero_f fl) (at_rest x) ≡ (leftover x, at_rest x)
  unfolding pid_wheel pid_update measured_for clamp_f
  rest_wheel x h =
      simp
        (
          h.not_fast, h.not_back, h.zero_zero, h.zero_dt, h.keeps, h.not_below, h.not_above,
          h.zero_over, h.zero_kp, h.zero_kd, h.left, h.right,
        )
        refl

  -- A round without a command and without an emergency.
  abbrev pub IsIdle : MotorInputs → Type 0
  IsIdle i = (i.incoming ≡ none) × (i.emergency ≡ false)

  -- No command is active.
  pub record IsFree (m : Motor) : Type 0 where
    pub no_move : m.cmd_active ≡ false
    pub no_target : m.move_to_active ≡ false
    pub no_emergency : m.emergency_stop ≡ false

  -- Rounds in turn.
  unfoldable pub run_wheels :
      (ℕ → ℕ) → ℕ → List MotorInputs → Option (Pose F) → Motor → Drive F → Option (Motor × Drive F)
  run_wheels ticks fuel [] p m d = some (m, d)
  run_wheels ticks fuel (i ∷ is) p m d = elim (wheel_tick fl ticks fuel i p m d) [
    | none ↦ none
    | some (m', d') ↦ run_wheels ticks fuel is p m' d'
  ]

  abbrev then_run :
      (ℕ → ℕ)
      → ℕ
      → List MotorInputs
      → Option (Pose F)
      → Option (Motor × Drive F)
      → Option (Motor × Drive F)
  then_run ticks fuel is p none = none
  then_run ticks fuel is p (some (m, d)) = run_wheels ticks fuel is p m d

  idle_tick :
      (ticks : ℕ → ℕ) (fuel : ℕ) (i : MotorInputs) (p : Option (Pose F)) (m : Motor) (d : Drive F)
      → IsIdle i
      → IsFree m
      → wheel_tick fl ticks fuel i p m d
        ≡ some (record m { wheels = resting }, pid_loop fl (all_four (zero_f fl)) d)
  unfolding wheel_tick receive receive_wheels watch_emergency expire drive target_speeds
  idle_tick ticks fuel i p m d h f = simp (h.0, h.1, f.no_move, f.no_target, f.no_emergency) refl

  -- Resting controllers, with what is left in their integrals.
  abbrev pub held : Four F → Four (Pid F)
  held x = each at_rest x

  rest_loop :
      (x : Four F) (d : Drive F)
      → AllNeutral x
      → d.pid ≡ held x
      → pid_loop fl (all_four (zero_f fl)) d ≡ record d { pid = held x; pwm = each leftover x }
  unfolding pid_loop
  rest_loop x d (a, b, c, e) h =
      let o = zero_f fl in
      simp
        (
          ap (λ (q : Four (Pid F)). pid_wheel fl o q.l1) h ∙ rest_wheel x.l1 a,
          ap (λ (q : Four (Pid F)). pid_wheel fl o q.l2) h ∙ rest_wheel x.l2 b,
          ap (λ (q : Four (Pid F)). pid_wheel fl o q.r1) h ∙ rest_wheel x.r1 c,
          ap (λ (q : Four (Pid F)). pid_wheel fl o q.r2) h ∙ rest_wheel x.r2 e,
        )
        refl

  rest_tick :
      (ticks : ℕ → ℕ) (fuel : ℕ) (i : MotorInputs) (p : Option (Pose F)) (m : Motor) (d : Drive F)
      (x : Four F)
      → IsIdle i
      → IsFree m
      → AllNeutral x
      → d.pid ≡ held x
      → wheel_tick fl ticks fuel i p m d
        ≡ some (record m { wheels = resting }, record d { pid = held x; pwm = each leftover x })
  rest_tick ticks fuel i p m d x h f n e =
      idle_tick ticks fuel i p m d h f
      ∙ ap (λ (d' : Drive F). some (record m { wheels = resting }, d')) (rest_loop x d n e)

  idle_run :
      (ticks : ℕ → ℕ) (fuel : ℕ) (i : MotorInputs) (is : List MotorInputs) (p : Option (Pose F))
      (m : Motor) (d : Drive F) (x : Four F)
      → All IsIdle (i ∷ is)
      → IsFree m
      → AllNeutral x
      → d.pid ≡ held x
      → run_wheels ticks fuel (i ∷ is) p m d
        ≡ some (record m { wheels = resting }, record d { pid = held x; pwm = each leftover x })
  unfolding run_wheels
  idle_run ticks fuel i [] p m d x (q, _) f n e =
      ap (then_run ticks fuel [] p) (rest_tick ticks fuel i p m d x q f n e)
  idle_run ticks fuel i (j ∷ is) p m d x (q, qs) f n e =
      ap (then_run ticks fuel (j ∷ is) p) (rest_tick ticks fuel i p m d x q f n e)
      ∙ idle_run ticks fuel j is p (record m { wheels = resting })
          (record d { pid = held x; pwm = each leftover x }) x qs
          (record { no_move = f.no_move; no_target = f.no_target; no_emergency = f.no_emergency }) n
          refl

  -- A timed move is active, and its end has come by the time of the test.
  pub record Expires (i : MotorInputs) (m : Motor) : Type 0 where
    pub moving : m.cmd_active ≡ true
    pub no_target : m.move_to_active ≡ false
    pub no_emergency : m.emergency_stop ≡ false
    pub timed : 0 < m.cmd_end_tick
    pub over : m.cmd_end_tick ≤ i.at_expiry

  -- The wheels of the round of the expiry, with whatever setpoints and errors it finds.
  abbrev ended : Drive F → Drive F
  ended d = pid_loop fl (all_four (zero_f fl)) (zero_setpoints fl d)

  -- What has summed up in the controllers.
  abbrev pub integrals : Drive F → Four F
  integrals d = each (λ (p : Pid F). p.integral) d.pid

  expiry_tick :
      (ticks : ℕ → ℕ) (fuel : ℕ) (i : MotorInputs) (p : Option (Pose F)) (m : Motor) (d : Drive F)
      → IsIdle i
      → Expires i m
      → wheel_tick fl ticks fuel i p m d
        ≡ some (record m { cmd_active = false; wheels = resting }, ended d)
  unfolding wheel_tick receive receive_wheels watch_emergency expire drive target_speeds
  expiry_tick ticks fuel i p m d h f =
      let positive : ltb 0 m.cmd_end_tick ≡ true = ltb_of_lt 0 m.cmd_end_tick f.timed in
      let passed : leb m.cmd_end_tick i.at_expiry ≡ true = ground (arith, f.over) in
      simp (h.0, h.1, f.moving, f.no_target, f.no_emergency, positive, passed) refl

  ended_wheel :
      (q : Pid F)
      → IsNeutral q.integral
      → (pid_wheel fl (zero_f fl) (record q { setpoint = zero_f fl })).1 ≡ at_rest q.integral
  unfolding pid_wheel pid_update measured_for clamp_f
  ended_wheel q h =
      simp (h.not_fast, h.not_back, h.zero_zero, h.zero_dt, h.keeps, h.not_below, h.not_above) refl

  ended-held : (d : Drive F) → AllNeutral (integrals d) → (ended d).pid ≡ held (integrals d)
  unfolding pid_loop
  ended-held d (a, b, c, e) =
      rw
        (
          ended_wheel d.pid.l1 a,
          ended_wheel d.pid.l2 b,
          ended_wheel d.pid.r1 c,
          ended_wheel d.pid.r2 e,
        )
        refl

  -- From the round in which a timed move ends, with whatever integrals, errors and setpoints the
  -- move has left, and one or more rounds after it, all without a command and without an
  -- emergency: the end does not reset the integrals, they stay as they are from then on, and each
  -- channel rests at the duty that a tenth of its integral gives. The hypotheses on floats are what
  -- 0 does in sums, products and comparisons.
  pub rest_creeps :
      (ticks : ℕ → ℕ) (fuel : ℕ) (i j : MotorInputs) (is : List MotorInputs) (p : Option (Pose F))
      (m : Motor) (d : Drive F)
      → Expires i m
      → All IsIdle (i ∷ j ∷ is)
      → AllNeutral (integrals d)
      → run_wheels ticks fuel (i ∷ j ∷ is) p m d
        ≡ some (
          record m { cmd_active = false; wheels = resting },
          record d { pid = held (integrals d); pwm = each leftover (integrals d) },
        )
  unfolding run_wheels pid_loop
  rest_creeps ticks fuel i j is p m d f (q, qs) n =
      ap (then_run ticks fuel (j ∷ is) p) (expiry_tick ticks fuel i p m d q f)
      ∙ idle_run ticks fuel j is p (record m { cmd_active = false; wheels = resting }) (ended d)
          (integrals d) qs
          (record { no_move = refl; no_target = f.no_target; no_emergency = f.no_emergency }) n
          (ended-held d n)
