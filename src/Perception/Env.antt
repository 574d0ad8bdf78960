-- ===== src/Perception/Env.antt =====
-- The environment sensors: firmware/components/perception/env_sensor.c. A `float` is a parameter,
-- with its operations; the compensation formulas are on integers. What the bus answers is an input.
use companion_robot.Base.{
  ℕ, suc, ◌+◌, ◌-◌, ◌*◌, ◌/◌, ◌%◌, ◌^◌, Bool, true, false, Option, none, some, ◌==◌, if◌then◌else◌,
}
use companion_robot.Base.Bytes.{Memory}
use companion_robot.Base.Int.{ℤ, pos, negsuc, ltb_ℤ}
use companion_robot.Base.Signed.{wrap, sum, minus, times, left, right, quotient}
use companion_robot.Base.Float.{FloatOps}

abbrev pub bme280_id_val : ℕ
bme280_id_val = 0x60

-- `bme280_calib_t`.
pub record Calib : Type 0 where
  pub dig_t1 : ℤ
  pub dig_t2 : ℤ
  pub dig_t3 : ℤ
  pub dig_p1 : ℤ
  pub dig_p2 : ℤ
  pub dig_p3 : ℤ
  pub dig_p4 : ℤ
  pub dig_p5 : ℤ
  pub dig_p6 : ℤ
  pub dig_p7 : ℤ
  pub dig_p8 : ℤ
  pub dig_p9 : ℤ
  pub dig_h1 : ℤ
  pub dig_h2 : ℤ
  pub dig_h3 : ℤ
  pub dig_h4 : ℤ
  pub dig_h5 : ℤ
  pub dig_h6 : ℤ

-- The new `g_t_fine` and the temperature in hundredths of a degree.
unfoldable pub bme280_compensate_t : Calib → (adc_t : ℤ) → ℤ × ℤ
bme280_compensate_t c adc_t =
    let var1 = right (times 32 (minus 32 (right adc_t 3) (left 32 c.dig_t1 1)) c.dig_t2) 11 in
    let d = minus 32 (right adc_t 4) c.dig_t1 in
    let var2 = right (times 32 (right (times 32 d d) 12) c.dig_t3) 14 in
    let t_fine = sum 32 var1 var2 in (t_fine, right (sum 32 (times 32 t_fine (pos 5)) (pos 128)) 8)

-- The cast to `uint32_t`.
abbrev pub to_u32 : ℤ → ℕ
to_u32 (pos n) = n % 2 ^ 32
to_u32 (negsuc n) = (2 ^ 32 - 1) - n % 2 ^ 32

abbrev pub is_zero : ℤ → Bool
is_zero (pos n) = n == 0
is_zero (negsuc n) = false

unfoldable pub bme280_compensate_p : Calib → (t_fine adc_p : ℤ) → ℕ
bme280_compensate_p c t_fine adc_p =
    let v = minus 64 t_fine (pos 128000) in
    let var2 =
      sum 64 (sum 64 (times 64 (times 64 v v) c.dig_p6) (left 64 (times 64 v c.dig_p5) 17))
        (left 64 c.dig_p4 35) in
    let slope =
      sum 64 (right (times 64 (times 64 v v) c.dig_p3) 8) (left 64 (times 64 v c.dig_p2) 12) in
    let var1 = right (times 64 (sum 64 (left 64 (pos 1) 47) slope) c.dig_p1) 33 in
    let p0 = minus 32 (pos 1048576) adc_p in
    let p = quotient (times 64 (minus 64 (left 64 p0 31) var2) (pos 3125)) var1 in
    let curve = right (times 64 (times 64 c.dig_p9 (right p 13)) (right p 13)) 25 in
    let line = right (times 64 c.dig_p8 p) 19 in
    let out = sum 64 (right (sum 64 (sum 64 p curve) line) 8) (left 64 c.dig_p7 4) in
    if is_zero var1 then 0 else to_u32 out

-- The last lines of `bme280_compensate_H`.
unfoldable pub humidity_of : ℤ → ℕ
humidity_of v =
    let low = if ltb_ℤ v (pos 0) then pos 0 else v in
    let high = if ltb_ℤ (pos 419430400) low then pos 419430400 else low in to_u32 (right high 12)

unfoldable pub bme280_compensate_h : Calib → (t_fine adc_h : ℤ) → ℕ
bme280_compensate_h c t_fine adc_h =
    let v = minus 32 t_fine (pos 76800) in
    let offset =
      right
        (sum 32 (minus 32 (minus 32 (left 32 adc_h 14) (left 32 c.dig_h4 20)) (times 32 c.dig_h5 v))
          (pos 16384))
        15 in
    let gain =
      right
        (times 32 (right (times 32 v c.dig_h6) 10)
          (sum 32 (right (times 32 v c.dig_h3) 11) (pos 32768)))
        10 in
    let slope = right (sum 32 (times 32 (sum 32 gain (pos 2097152)) c.dig_h2) (pos 8192)) 14 in
    let u = times 32 offset slope in
    let bend = right (times 32 (right (times 32 (right u 15) (right u 15)) 7) c.dig_h1) 4 in
    humidity_of (minus 32 u bend)

-- `(uint16_t)` and `(int16_t)` of two bytes, the low one first.
abbrev pub u16_at : Memory → ℕ → ℤ
u16_at m k = pos (m k + m (k + 1) * 256)

abbrev pub s16_at : Memory → ℕ → ℤ
s16_at m k = wrap 16 (pos (m k + m (k + 1) * 256))

-- "Read calibration data", from what the two reads have put into the buffers.
unfoldable pub parse_calib : (calib1 calib2 : Memory) → Calib
parse_calib a b = record {
  dig_t1 = u16_at a 0;
  dig_t2 = s16_at a 2;
  dig_t3 = s16_at a 4;
  dig_p1 = u16_at a 6;
  dig_p2 = s16_at a 8;
  dig_p3 = s16_at a 10;
  dig_p4 = s16_at a 12;
  dig_p5 = s16_at a 14;
  dig_p6 = s16_at a 16;
  dig_p7 = s16_at a 18;
  dig_p8 = s16_at a 20;
  dig_p9 = s16_at a 22;
  dig_h1 = pos (a 25);
  dig_h2 = s16_at b 0;
  dig_h3 = pos (b 2);
  dig_h4 = wrap 16 (pos (b 3 * 16 + b 4 % 16));
  dig_h5 = wrap 16 (pos (b 5 * 16 + (b 4 / 16) % 16));
  dig_h6 = wrap 8 (pos (b 6));
}

-- `bme280_init`, for the identifier that it reads, if it can: the calibration, if it returns true.
unfoldable pub bme280_init : (id : Option ℕ) → (calib1 calib2 : Memory) → Option Calib
bme280_init none a b = none
bme280_init (some id) a b = if id == bme280_id_val then some (parse_calib a b) else none

-- `env_data_t`.
pub record EnvData (F : Type 0) : Type 0 where
  pub temperature : F
  pub humidity : F
  pub pressure : F
  pub co2_ppm : ℕ
  pub tvoc_ppb : ℕ
  pub ambient_light : F
  pub timestamp_ms : ℕ

-- The globals; of `g_bme280_ok` and `g_bme_cal`, the calibration if the sensor is there.
pub record EnvState (F : Type 0) : Type 0 where
  pub env_data : EnvData F
  pub bme_cal : Option Calib
  pub t_fine : ℤ
  pub sgp30_ok : Bool
  pub bh1750_ok : Bool

-- What a round reads from each sensor, if it can; the light sensor is asked in two ways.
pub record EnvInputs : Type 0 where
  pub bme_data : Option Memory
  pub sgp_data : Option Memory
  pub light_by_register : Option Memory
  pub light_raw : Option Memory
  pub now_ms : ℕ

module _ {F : Type 0} (fl : FloatOps F) where
  abbrev pub zero_f : F
  zero_f = fl.literal 0 1

  abbrev pub of_ℤ : ℤ → F
  of_ℤ (pos n) = fl.of_int n
  of_ℤ (negsuc n) = fl.negate (fl.of_int (suc n))

  abbrev pub no_data : EnvData F
  no_data = record {
    temperature = zero_f;
    humidity = zero_f;
    pressure = zero_f;
    co2_ppm = 0;
    tvoc_ppb = 0;
    ambient_light = zero_f;
    timestamp_ms = 0;
  }

  -- `env_sensor_init`: whether the sensor of the air is there, and whether that of the light is.
  unfoldable pub env_sensor_init :
      (bme : Option Calib) → (sgp30_ok bh1750_ok : Bool) → EnvState F → EnvState F
  env_sensor_init bme sgp30_ok bh1750_ok s = record s {
    env_data = no_data;
    bme_cal = bme;
    sgp30_ok = sgp30_ok;
    bh1750_ok = bh1750_ok;
  }

  unfoldable pub env_sensor_get_latest : EnvState F → Option (EnvData F)
  env_sensor_get_latest s = some s.env_data

  -- `bme280_read`, for a sensor that is there.
  unfoldable pub bme280_read :
      Option Calib → Option Memory → (t_fine : ℤ) → EnvData F → ℤ × EnvData F
  bme280_read none m t_fine e = (t_fine, e)
  bme280_read (some c) none t_fine e = (t_fine, e)
  bme280_read (some c) (some m) t_fine e =
      let adc_p = pos (m 0 * 4096 + m 1 * 16 + m 2 / 16) in
      let adc_t = pos (m 3 * 4096 + m 4 * 16 + m 5 / 16) in
      let adc_h = pos (m 6 * 256 + m 7) in
      let (fine, t_raw) = bme280_compensate_t c adc_t in
      (
        fine,
        record e {
          temperature = fl.over (of_ℤ t_raw) (fl.literal 100 1);
          pressure = fl.over (fl.of_int (bme280_compensate_p c fine adc_p)) (fl.literal 25600 1);
          humidity = fl.over (fl.of_int (bme280_compensate_h c fine adc_h)) (fl.literal 1024 1);
        },
      )

  -- `sgp30_read`; its checksums are not looked at.
  unfoldable pub sgp30_read : Bool → Option Memory → EnvData F → EnvData F
  sgp30_read false m e = e
  sgp30_read true none e = e
  sgp30_read true (some m) e = record e { co2_ppm = m 0 * 256 + m 1; tvoc_ppb = m 3 * 256 + m 4 }

  abbrev pub either_read : Option Memory → Option Memory → Option Memory
  either_read none m = m
  either_read (some k) m = some k

  unfoldable pub bh1750_read : Bool → Option Memory → EnvData F → EnvData F
  bh1750_read false m e = e
  bh1750_read true none e = e
  bh1750_read true (some m) e = record e {
    ambient_light = fl.over (fl.of_int (m 0 * 256 + m 1)) (fl.literal 12 10);
  }

  -- A round of `task_env_sensor`.
  unfoldable pub env_round : EnvInputs → EnvState F → EnvState F
  env_round i s =
      let (fine, e) = bme280_read s.bme_cal i.bme_data s.t_fine no_data in
      let light = either_read i.light_by_register i.light_raw in
      let reading = bh1750_read s.bh1750_ok light (sgp30_read s.sgp30_ok i.sgp_data e) in
      record s { env_data = record reading { timestamp_ms = i.now_ms }; t_fine = fine }
