-- ===== src/Localization/Standstill.antt =====
-- The standstill that the estimator reports: firmware/components/localization/localization.c.
use companion_robot.Base.{
  ℕ, suc, ◌+◌, ◌*◌, ◌/◌, ◌%◌, ◌<◌, ◌≡◌, refl, ap, sym, subst, ◌∙◌, Bool, true, false, Option, none,
  some, List, [], ◌∷◌, length, All, Bool-cases, inl, inr, if◌then◌else◌, add32, arith,
}
use mathlib.Core.List.{foldl}
use mathlib.Core.Option
use companion_robot.Base.Float.{FloatOps}
use companion_robot.Localization.Heading.{Inside, TurnLaws, wrap_near}
use companion_robot.Motion.MotorCtl.{MotorCmd}
use companion_robot.Localization.Estimate.{
  Loc, LocInputs, Velocity, FrontRange, wrap_yaw, ekf_predict, looks_stopped, command_to_velocity,
  accel_mag, detect_zero_velocity, nudge, apply_tof_correction, predict_locked, correct_rarely,
  latest, loc_round, yaw_rate, dt, lit,
}

one_more : (n s d : ℕ) → (add32 d s + n * s) % 4294967296 ≡ (d + suc n * s) % 4294967296
one_more n s d = omega arith

from_none : (n s : ℕ) → (add32 0 s + n * s) % 4294967296 ≡ (suc n * s) % 4294967296
from_none n s = one_more n s 0 ∙ omega arith

module _ {F : Type 0} (fl : FloatOps F) where
  -- A heading within a half turn and a turn of at most 360 degrees add up to at most 540.
  abbrev pub SumLaw : Type 0
  SumLaw = (a b : F) → Inside fl 180 a → Inside fl 360 b → Inside fl 540 (fl.plus a b)

  -- A round that takes the lock, in which the heading turns by at most 360 degrees.
  abbrev pub Steady : LocInputs F → Type 0
  Steady i = (i.locked ≡ true) × Inside fl 360 (fl.times (yaw_rate fl i.imu) (dt fl))

  abbrev pub heading : Loc F → F
  heading l = l.pose.yaw_deg

  -- The time of a round, in milliseconds.
  abbrev pub step_ms : ℕ
  step_ms = fl.to_int (fl.times (dt fl) (lit fl 1000 1))

  -- The two fields of the standstill, and the command that the odometry follows.
  abbrev pub still : Loc F → Bool × ℕ × MotorCmd
  still l = (l.zero_velocity, l.zero_velocity_duration_ms, l.current_cmd)

  -- A round's growth of the standstill.
  abbrev grown : Bool × ℕ × MotorCmd → Bool × ℕ × MotorCmd
  grown (z, d, c) = (z, if z then add32 d step_ms else d, c)

  nudge-still : (d now : ℕ) (l : Loc F) → still (nudge fl d now l) ≡ still l
  unfolding nudge
  nudge-still d now l = ground arith

  tof-still : (t : Option FrontRange) (l : Loc F) → still (apply_tof_correction fl t l) ≡ still l
  unfolding apply_tof_correction
  tof-still none l = refl
  tof-still (some t) l = ground (arith, nudge-still (t.front_mm / 10) t.timestamp_ms l)

  correct-still : (i : LocInputs F) (l : Loc F) → still (correct_rarely fl i l) ≡ still l
  unfolding correct_rarely
  correct-still i l = ground (arith, tof-still i.tof (record l { tof_counter = 0 }))

  nudge-heading : (d now : ℕ) (l : Loc F) → heading (nudge fl d now l) ≡ heading l
  unfolding nudge
  nudge-heading d now l = ground arith

  tof-heading :
      (t : Option FrontRange) (l : Loc F) → heading (apply_tof_correction fl t l) ≡ heading l
  unfolding apply_tof_correction
  tof-heading none l = refl
  tof-heading (some t) l = ground (arith, nudge-heading (t.front_mm / 10) t.timestamp_ms l)

  correct-heading : (i : LocInputs F) (l : Loc F) → heading (correct_rarely fl i l) ≡ heading l
  unfolding correct_rarely
  correct-heading i l = ground (arith, tof-heading i.tof (record l { tof_counter = 0 }))

  detect-heading :
      (v : Velocity F) (mag : F) (l : Loc F) → heading (detect_zero_velocity fl v mag l) ≡ heading l
  unfolding detect_zero_velocity
  detect-heading v mag l = ground arith

  latest-heading : (o : Option MotorCmd) (l : Loc F) → heading (latest fl o l) ≡ heading l
  unfolding latest
  latest-heading none l = refl
  latest-heading (some c) l = refl

  -- What the prediction gives, when the wrapped heading is `y`.
  predict-wrapped :
      (fuel : ℕ) (i : LocInputs F) (l : Loc F) (y : F)
      → i.locked ≡ true
      → wrap_yaw fl fuel (fl.plus l.pose.yaw_deg (fl.times (yaw_rate fl i.imu) (dt fl))) ≡ some y
      → (l' : Loc F) × (predict_locked fl fuel i l ≡ some l')
        × (still l' ≡ grown (still l))
        × (heading l' ≡ y)
  unfolding predict_locked ekf_predict
  predict-wrapped fuel i l y k e = rw (k, e) (_, refl, refl, refl)

  -- Whether a round finds the robot stopped, by the command and the reading.
  abbrev pub stopped : MotorCmd → LocInputs F → Bool
  stopped c i = looks_stopped fl (command_to_velocity fl c) (accel_mag fl i.imu)

  detect-still :
      (v : Velocity F) (mag : F) (l : Loc F)
      → grown (still (detect_zero_velocity fl v mag l)) ≡ (
          if looks_stopped fl v mag
          then (
            true,
            add32 (if l.zero_velocity then l.zero_velocity_duration_ms else 0) step_ms,
            l.current_cmd,
          )
          else (false, 0, l.current_cmd))
  unfolding detect_zero_velocity
  detect-still v mag l = elim (Bool-cases (looks_stopped fl v mag)) [
    | inl e ↦ rw e refl
    | inr e ↦ rw e refl
  ]

  -- What a round makes of them, without the pose.
  abbrev pub tracked : Bool × ℕ × MotorCmd → LocInputs F → Bool × ℕ × MotorCmd
  tracked (z, d, c) i =
      let c' = Option.get_or i.incoming c in
      if stopped c' i then (true, add32 (if z then d else 0) step_ms, c') else (false, 0, c')

  latest-still :
      (o : Option MotorCmd) (l : Loc F)
      → still (latest fl o l)
        ≡ (l.zero_velocity, l.zero_velocity_duration_ms, Option.get_or o l.current_cmd)
  unfolding latest
  latest-still none l = refl
  latest-still (some c) l = refl

  -- A round from a heading within a half turn ends, in such a heading.
  round-still :
      (n : ℕ) (i : LocInputs F) (l : Loc F)
      → TurnLaws fl
      → SumLaw
      → Inside fl 180 (heading l)
      → Steady i
      → (l' : Loc F) × (loc_round fl (suc (suc n)) i l ≡ some l')
        × (still l' ≡ tracked (still l) i)
        × Inside fl 180 (heading l')
  unfolding loc_round
  round-still n i l t s w (k, turn) =
      let l1 = latest fl i.incoming l in
      let v = command_to_velocity fl l1.current_cmd in
      let mag = accel_mag fl i.imu in
      let l2 = detect_zero_velocity fl v mag l1 in
      let same = detect-heading v mag l1 ∙ latest-heading i.incoming l in
      let (y, e, within) =
        wrap_near fl n _ t
          (s (heading l2) _ (subst (λ (a : F). Inside fl 180 a) (sym same) w) turn) in
      let (l3, p, q, r) = predict-wrapped (suc (suc n)) i l2 y k e in
      let tests : Bool × ℕ × MotorCmd → Bool × ℕ × MotorCmd = λ x.
        if stopped x.2 i
        then (true, add32 (if x.0 then x.1 else 0) step_ms, x.2)
        else (false, 0, x.2) in
      let finish : Option (Loc F) → Option (Loc F) =
        λ o. elim o [ none ↦ none | some l3 ↦ some (correct_rarely fl i l3) ] in
      (
        correct_rarely fl i l3,
        ap finish p,
        correct-still i l3 ∙ (q ∙ (detect-still v mag l1 ∙ ap tests (latest-still i.incoming l))),
        subst (λ (a : F). Inside fl 180 a) (sym (correct-heading i l3 ∙ r)) within,
      )

  -- Rounds in turn.
  unfoldable pub run_loc : (fuel : ℕ) → List (LocInputs F) → Loc F → Option (Loc F)
  run_loc fuel [] l = some l
  run_loc fuel (i ∷ is) l = elim (loc_round fl fuel i l) [
    | none ↦ none
    | some l' ↦ run_loc fuel is l'
  ]

  abbrev then_rounds : ℕ → List (LocInputs F) → Option (Loc F) → Option (Loc F)
  then_rounds fuel is none = none
  then_rounds fuel is (some l) = run_loc fuel is l

  -- From a heading within a half turn, with the lock taken in every round and no turn of more than
  -- 360 degrees in one, two rounds of each heading loop are enough for a run of the task to end. It
  -- makes of the standstill, its time and the command what the rounds' tests alone make of them,
  -- whatever the position, the locks of the correction and the distances are. The hypotheses on
  -- floats bound sums and differences of headings up to 540 degrees.
  pub run_loc-still :
      (n : ℕ) (is : List (LocInputs F)) (l : Loc F)
      → TurnLaws fl
      → SumLaw
      → Inside fl 180 (heading l)
      → All Steady is
      → Option.map still (run_loc (suc (suc n)) is l) ≡ some (foldl tracked (still l) is)
  unfolding run_loc
  run_loc-still n [] l t s w k = refl
  run_loc-still n (i ∷ is) l t s w (k, ks) =
      let (l', e, q, w') = round-still n i l t s w k in
      ap (λ (o : Option (Loc F)). Option.map still (then_rounds (suc (suc n)) is o)) e
      ∙ run_loc-still n is l' t s w' ks
      ∙ ap (λ (x : Bool × ℕ × MotorCmd). some (foldl tracked x is)) q

  -- A steady round with no new command, and a reading that passes the test with `c`.
  abbrev pub Quiet : MotorCmd → LocInputs F → Type 0
  Quiet c i = Steady i × (i.incoming ≡ none) × (stopped c i ≡ true)

  Steady-All : (is : List (LocInputs F)) (c : MotorCmd) → All (Quiet c) is → All Steady is
  Steady-All [] c k = k
  Steady-All (i ∷ is) c (q, ks) = (q.0, Steady-All is c ks)

  tracked-Quiet :
      (z : Bool) (d : ℕ) (c : MotorCmd) (i : LocInputs F)
      → Quiet c i
      → tracked (z, d, c) i ≡ (true, add32 (if z then d else 0) step_ms, c)
  tracked-Quiet z d c i (k, n, q) = rw (n, q) refl

  foldl-Quiet :
      (is : List (LocInputs F)) (d : ℕ) (c : MotorCmd)
      → d < 4294967296
      → All (Quiet c) is
      → foldl tracked (true, d, c) is ≡ (true, (d + length is * step_ms) % 4294967296, c)
  foldl-Quiet [] d c h k = ap (λ (x : ℕ). (true, x, c)) (omega (arith, h))
  foldl-Quiet (i ∷ is) d c h (k, ks) =
      ap (λ (x : Bool × ℕ × MotorCmd). foldl tracked x is) (tracked-Quiet true d c i k)
      ∙ foldl-Quiet is (add32 d step_ms) c (omega arith) ks
      ∙ ap (λ (x : ℕ). (true, x, c)) (one_more (length is) step_ms d)

  -- From a robot that counts as moving, a run of one or more steady rounds that bring no new
  -- command and pass the test reports a standstill, for as long as the rounds together took, modulo
  -- 2^32 milliseconds. The heading is within a half turn.
  pub standstill_time :
      (n : ℕ) (i : LocInputs F) (is : List (LocInputs F)) (l : Loc F)
      → TurnLaws fl
      → SumLaw
      → Inside fl 180 (heading l)
      → All (Quiet l.current_cmd) (i ∷ is)
      → l.zero_velocity ≡ false
      → Option.map still (run_loc (suc (suc n)) (i ∷ is) l)
        ≡ some (true, (length (i ∷ is) * step_ms) % 4294967296, l.current_cmd)
  standstill_time n i is l t s w k z =
      run_loc-still n (i ∷ is) l t s w (Steady-All (i ∷ is) l.current_cmd k)
      ∙ ap (λ (x : Bool × ℕ × MotorCmd). some (foldl tracked x is))
          (tracked-Quiet l.zero_velocity l.zero_velocity_duration_ms l.current_cmd i k.0)
      ∙ ap some (foldl-Quiet is _ l.current_cmd (omega arith) k.1)
      ∙ ap (λ (x : ℕ). some (true, x, l.current_cmd)) (rw z (from_none (length is) step_ms))
