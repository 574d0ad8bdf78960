-- ===== src/Perception/Blind.antt =====
-- What the estimator sees of a missing inertial sensor: firmware/components/perception/imu.c,
-- firmware/components/localization/localization.c.
use companion_robot.Base.{
  ℕ, ◌≡◌, ◌≢◌, refl, ap, ◌∙◌, true, Option, none, some, List, [], ◌∷◌, All, arith,
}
use mathlib.Core.Option
use companion_robot.Base.Float.{FloatOps}
use companion_robot.Perception.Imu.{
  ImuData, ImuState, ImuInputs, for_localization, zero_data, zero_f, imu_init, imu_get_latest,
  imu_round, on_reading, run_imu, bmi270_chip_id_val,
}
use companion_robot.Localization.Estimate.{accel_mag, at_rest, looks_stopped}

module _ {F : Type 0} (fl : FloatOps F) where
  failed_round :
      (i : ImuInputs) (s : ImuState F) → i.raw ≡ none → (imu_round fl i s).imu_data ≡ s.imu_data
  unfolding imu_round on_reading
  failed_round i s e = rw e refl

  -- Failing reads keep the last data, however old it is.
  failed_run :
      (is : List ImuInputs) (s : ImuState F)
      → All (λ (i : ImuInputs). i.raw ≡ none) is
      → (run_imu fl is s).imu_data ≡ s.imu_data
  unfolding run_imu
  failed_run [] s h = refl
  failed_run (i ∷ is) s (e, es) = failed_run is (imu_round fl i s) es ∙ failed_round i s e

  missing_init :
      (chip : Option ℕ) (now_us : ℕ) (s : ImuState F)
      → chip ≢ some bmi270_chip_id_val
      → (imu_init fl chip now_us s).imu_data ≡ zero_data fl
  unfolding imu_init
  missing_init none now_us s h = refl
  missing_init (some id) now_us s h = ground (arith, λ (e : id ≡ bmi270_chip_id_val). h (ap some e))

  zero_mag :
      fl.times (zero_f fl) (zero_f fl) ≡ zero_f fl
      → fl.plus (zero_f fl) (zero_f fl) ≡ zero_f fl
      → fl.sqrtf (zero_f fl) ≡ zero_f fl
      → accel_mag fl (some (for_localization (zero_data fl))) ≡ zero_f fl
  unfolding accel_mag
  zero_mag square double root = rw (accel_mag, square, double, double, root) refl

  -- A sensor that is missing at the start, and then fails every read: `imu_get_latest` succeeds all
  -- the same, and its data passes the test of the estimator for a robot that is told to rest. The
  -- hypotheses on floats are the square of 0, its double, its square root, its absolute value, and
  -- that it is less than the three thresholds.
  pub missing_sensor_rests :
      (chip : Option ℕ) (now_us : ℕ) (is : List ImuInputs) (s : ImuState F)
      → chip ≢ some bmi270_chip_id_val
      → All (λ (i : ImuInputs). i.raw ≡ none) is
      → fl.times (zero_f fl) (zero_f fl) ≡ zero_f fl
      → fl.plus (zero_f fl) (zero_f fl) ≡ zero_f fl
      → fl.sqrtf (zero_f fl) ≡ zero_f fl
      → fl.fabsf (zero_f fl) ≡ zero_f fl
      → (fl.less (zero_f fl) (fl.times (fl.literal 2 100) (fl.literal 40 1)) ≡ true)
        × (fl.less (zero_f fl) (fl.literal 5 10) ≡ true)
        × (fl.less (zero_f fl) (fl.times (fl.literal 15 100) (fl.literal 981 100)) ≡ true)
      → let seen = imu_get_latest fl (run_imu fl is (imu_init fl chip now_us s)) in
        (seen ≡ some (zero_data fl))
        × (looks_stopped fl (at_rest fl) (accel_mag fl (Option.map for_localization seen)) ≡ true)
  unfolding imu_get_latest looks_stopped
  missing_sensor_rests chip now_us is s n h square double root abs (a, b, c) =
      let d = failed_run is (imu_init fl chip now_us s) h ∙ missing_init chip now_us s n in
      (
        ap some d,
        ap
              (λ (x : ImuData F).
                looks_stopped fl (at_rest fl) (accel_mag fl (some (for_localization x))))
              d
            ∙ simp (zero_mag square double root, abs, a, b, c) refl,
      )
