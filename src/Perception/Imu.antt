-- ===== src/Perception/Imu.antt =====
-- The inertial sensor: firmware/components/perception/imu.c. A `float` is a parameter, with its
-- operations. Of the set-up, the writes to the sensor are not recorded.
use companion_robot.Base.{
  ℕ, ◌+◌, ◌-◌, ◌*◌, ◌%◌, ◌^◌, ◌&&◌, Option, none, some, List, [], ◌∷◌, ◌==◌, if◌then◌else◌,
}
use companion_robot.Base.Bytes.{Memory}
use companion_robot.Base.Float.{FloatOps, of_int16}
use companion_robot.Localization.Estimate.{Imu}

abbrev pub bmi270_chip_id_val : ℕ
bmi270_chip_id_val = 0x24

-- `imu_data_t`: what Localization/Estimate names `Imu`, and the other fields.
pub record ImuData (F : Type 0) : Type 0 where
  pub accel_x : F
  pub accel_y : F
  pub accel_z : F
  pub gyro_x : F
  pub gyro_y : F
  pub gyro_z : F
  pub pitch : F
  pub roll : F
  pub yaw : F
  pub timestamp_ms : ℕ

abbrev pub for_localization : {F : Type 0} → ImuData F → Imu F
for_localization d = record {
  accel_x = d.accel_x;
  accel_y = d.accel_y;
  accel_z = d.accel_z;
  gyro_z = d.gyro_z;
}

-- The globals, with the counter of failed reads.
pub record ImuState (F : Type 0) : Type 0 where
  pub imu_data : ImuData F
  pub cal_offset : ℕ → F
  pub pitch : F
  pub roll : F
  pub yaw : F
  pub last_gyro_us : ℕ
  pub err_count : ℕ

-- A round's reading, if the read succeeds, and the two clocks.
pub record ImuInputs : Type 0 where
  pub raw : Option Memory
  pub now_us : ℕ
  pub now_ms : ℕ

module _ {F : Type 0} (fl : FloatOps F) where
  abbrev pub zero_f : F
  zero_f = fl.literal 0 1

  abbrev pub zero_data : ImuData F
  zero_data = record {
    accel_x = zero_f;
    accel_y = zero_f;
    accel_z = zero_f;
    gyro_x = zero_f;
    gyro_y = zero_f;
    gyro_z = zero_f;
    pitch = zero_f;
    roll = zero_f;
    yaw = zero_f;
    timestamp_ms = 0;
  }

  -- `imu_init`, for the chip that answers, if one does.
  unfoldable pub imu_init : (chip_id : Option ℕ) → (now_us : ℕ) → ImuState F → ImuState F
  imu_init none now_us s = record s { imu_data = zero_data; cal_offset = λ k. zero_f }
  imu_init (some id) now_us s =
      if id == bmi270_chip_id_val
      then record s {
        cal_offset = λ k. zero_f;
        pitch = zero_f;
        roll = zero_f;
        yaw = zero_f;
        last_gyro_us = now_us;
      }
      else record s { imu_data = zero_data; cal_offset = λ k. zero_f }

  -- `imu_get_latest` into an object: it always returns true.
  unfoldable pub imu_get_latest : ImuState F → Option (ImuData F)
  imu_get_latest s = some s.imu_data

  -- The bytes at `k` as a little-endian `int16_t`, converted.
  abbrev pub word_at : Memory → ℕ → F
  word_at raw k = of_int16 fl (raw k + raw (k + 1) * 256)

  abbrev pub accel_scale : F
  accel_scale = fl.over (fl.times (fl.literal 4 1) (fl.literal 980665 100000)) (fl.literal 32768 1)

  abbrev pub to_degrees : F → F
  to_degrees x = fl.over (fl.times x (fl.literal 180 1)) (fl.literal 314159265 100000000)

  abbrev pub gyro_scale : F
  gyro_scale =
      fl.over
        (fl.over (fl.times (fl.literal 500 1) (fl.literal 314159265 100000000)) (fl.literal 180 1))
        (fl.literal 32768 1)

  abbrev pub deadband : F → F
  deadband g = if fl.less (fl.fabsf g) (fl.literal 1 100) then zero_f else g

  abbrev pub filter_alpha : F
  filter_alpha = fl.literal 98 100

  -- "Complementary filter" for one angle.
  abbrev pub blended : (angle gyro gyro_dt from_accel : F) → F
  blended angle gyro gyro_dt from_accel =
      fl.plus (fl.times filter_alpha (fl.plus angle (to_degrees (fl.times gyro gyro_dt))))
        (fl.times (fl.minus (fl.literal 1 1) filter_alpha) from_accel)

  -- The six values of a reading, less their offsets, the rates past the deadband.
  unfoldable pub measured : Memory → (cal_offset : ℕ → F) → ImuData F → ImuData F
  measured raw cal d =
      let accel : ℕ → F = λ k. fl.minus (fl.times (word_at raw (2 * k)) accel_scale) (cal k) in
      let gyro : ℕ → F =
        λ k. deadband (fl.minus (fl.times (word_at raw (6 + 2 * k)) gyro_scale) (cal (3 + k))) in
      record d {
        accel_x = accel 0;
        accel_y = accel 1;
        accel_z = accel 2;
        gyro_x = gyro 0;
        gyro_y = gyro 1;
        gyro_z = gyro 2;
      }

  abbrev pub sq : F → F
  sq x = fl.times x x

  -- The integration of the rates since the last reading.
  unfoldable pub integrate : ImuData F → (now_us : ℕ) → ImuState F → ImuState F
  integrate d now_us s =
      let acc_pitch =
        to_degrees
          (fl.atan2f (fl.negate d.accel_x) (fl.sqrtf (fl.plus (sq d.accel_y) (sq d.accel_z)))) in
      let acc_roll = to_degrees (fl.atan2f d.accel_y d.accel_z) in
      let gyro_dt =
        fl.over (fl.of_int ((now_us + 2 ^ 64 - s.last_gyro_us) % 2 ^ 64)) (fl.literal 1000000 1) in
      let turned = record s {
        last_gyro_us = now_us;
        pitch = blended s.pitch d.gyro_x gyro_dt acc_pitch;
        roll = blended s.roll d.gyro_y gyro_dt acc_roll;
        yaw = fl.plus s.yaw (to_degrees (fl.times d.gyro_z gyro_dt));
      } in
      if fl.less zero_f gyro_dt && fl.less gyro_dt (fl.literal 1 10)
      then turned
      else record s { last_gyro_us = now_us }

  abbrev pub published : ImuData F → (now_ms : ℕ) → ImuState F → ImuState F
  published d now_ms s = record s {
    imu_data = record d { pitch = s.pitch; roll = s.roll; yaw = s.yaw; timestamp_ms = now_ms };
  }

  unfoldable pub on_reading : Option Memory → ImuInputs → ImuState F → ImuState F
  on_reading none i s = record s { err_count = s.err_count + 1 }
  on_reading (some raw) i s =
      let d = measured raw s.cal_offset s.imu_data in published d i.now_ms (integrate d i.now_us s)

  -- A round of `task_imu`, and rounds in turn.
  unfoldable pub imu_round : ImuInputs → ImuState F → ImuState F
  imu_round i s = on_reading i.raw i s

  unfoldable pub run_imu : List ImuInputs → ImuState F → ImuState F
  run_imu [] s = s
  run_imu (i ∷ is) s = run_imu is (imu_round i s)
