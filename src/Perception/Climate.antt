-- ===== src/Perception/Climate.antt =====
-- The values that the environment sensors publish: firmware/components/perception/env_sensor.c.
use mathlib.Core.Option
use companion_robot.Base.{
  ℕ, ◌+◌, ◌*◌, ◌/◌, ◌%◌, ◌≤◌, ◌<◌, ◌≡◌, refl, ap, ◌∙◌, Option, none, some, arith, ◌⊎◌, inl, inr,
}
use companion_robot.Base.Bytes.{Memory}
use companion_robot.Base.Int.{ℤ, pos}
use companion_robot.Base.Signed.{wrap, right}
use companion_robot.Base.Float.{FloatOps}
use companion_robot.Perception.Env.{
  Calib, EnvData, EnvState, EnvInputs, humidity_of, bme280_compensate_h, parse_calib, env_round,
  bme280_read, sgp30_read, bh1750_read, either_read, zero_f, no_data,
}

humidity_of_bound : (v : ℤ) → humidity_of v ≤ 102400
unfolding humidity_of right
humidity_of_bound v = ground arith

-- The humidity, in 1024ths of a percent, is at most 100 percent: for every calibration, whatever
-- the sensor reads, and also where the sums of 32 bits wrap around.
pub humidity_bound : (c : Calib) (t_fine adc_h : ℤ) → bme280_compensate_h c t_fine adc_h ≤ 102400
unfolding bme280_compensate_h
humidity_bound c t_fine adc_h = humidity_of_bound _

-- Two of the humidity's calibration values, which the sensor gives with 12 bits and a sign, are read
-- without the sign: they are from 0 to 4095, whatever the bytes are.
calibration_loses_sign :
    (a b : Memory)
    → (b 3 < 256) × (b 4 < 256) × (b 5 < 256)
    → ((parse_calib a b).dig_h4 ≡ pos (b 3 * 16 + b 4 % 16))
      × ((parse_calib a b).dig_h5 ≡ pos (b 5 * 16 + b 4 / 16))
unfolding parse_calib wrap
calibration_loses_sign a b h = ground (arith, h)

module _ {F : Type 0} (fl : FloatOps F) where
  silent_read :
      (c : Option Calib) (m : Option Memory) (t : ℤ) (e : EnvData F)
      → (c ≡ none) ⊎ (m ≡ none)
      → bme280_read fl c m t e ≡ (t, e)
  unfolding bme280_read
  silent_read none m t e h = refl
  silent_read (some c) none t e h = refl
  silent_read (some c) (some m) t e (inl h) = absurd (Option.some-ne-none c h)
  silent_read (some c) (some m) t e (inr h) = absurd (Option.some-ne-none m h)

  -- The other two reads, after that of the climate.
  abbrev after : EnvInputs → EnvState F → EnvData F → EnvData F
  after i s e =
      bh1750_read fl s.bh1750_ok (either_read fl i.light_by_register i.light_raw)
        (sgp30_read fl s.sgp30_ok i.sgp_data e)

  after_climate :
      (i : EnvInputs) (s : EnvState F) (e : EnvData F)
      → ((after i s e).temperature ≡ e.temperature)
        × ((after i s e).humidity ≡ e.humidity)
        × ((after i s e).pressure ≡ e.pressure)
  unfolding bh1750_read sgp30_read
  after_climate i s e = ground arith

  after_others :
      (i : EnvInputs) (s : EnvState F) (e e' : EnvData F)
      → (e.co2_ppm ≡ e'.co2_ppm) × (e.tvoc_ppb ≡ e'.tvoc_ppb) × (e.ambient_light ≡ e'.ambient_light)
      → ((after i s e).co2_ppm ≡ (after i s e').co2_ppm)
        × ((after i s e).tvoc_ppb ≡ (after i s e').tvoc_ppb)
        × ((after i s e).ambient_light ≡ (after i s e').ambient_light)
  unfolding bh1750_read sgp30_read
  after_others i s e e' h = ground (arith, h)

  heard_others :
      (c : Calib) (m : Memory) (t : ℤ) (e : EnvData F)
      → (e.co2_ppm ≡ (bme280_read fl (some c) (some m) t e).1.co2_ppm)
        × (e.tvoc_ppb ≡ (bme280_read fl (some c) (some m) t e).1.tvoc_ppb)
        × (e.ambient_light ≡ (bme280_read fl (some c) (some m) t e).1.ambient_light)
  unfolding bme280_read
  heard_others c m t e = (refl, refl, refl)

  -- A round in which the sensor of temperature, humidity and pressure is missing or does not answer
  -- publishes 0 for all three, whatever was published before, with the time of the round and
  -- the gas and light values of a round in which that sensor answers.
  silent_climate :
      (i : EnvInputs) (s : EnvState F) (m : Memory) (c : Calib)
      → (s.bme_cal ≡ none) ⊎ (i.bme_data ≡ none)
      → let e = (env_round fl i s).env_data in
        let heard = record i { bme_data = some m } in
        let there = record s { bme_cal = some c } in
        let e' = (env_round fl heard there).env_data in
        ((e.temperature ≡ zero_f fl) × (e.humidity ≡ zero_f fl) × (e.pressure ≡ zero_f fl))
        × ((e.co2_ppm ≡ e'.co2_ppm)
            × (e.tvoc_ppb ≡ e'.tvoc_ppb)
            × (e.ambient_light ≡ e'.ambient_light))
        × (e.timestamp_ms ≡ i.now_ms)
  unfolding env_round
  silent_climate i s m c h =
      let quiet : (bme280_read fl s.bme_cal i.bme_data s.t_fine (no_data fl)).1 ≡ no_data fl =
        ap (λ (r : ℤ × EnvData F). r.1)
          (silent_read s.bme_cal i.bme_data s.t_fine (no_data fl) h) in
      let (a, b, d) = after_climate i s (no_data fl) in
      let (f, g, k) =
        after_others i s (no_data fl) (bme280_read fl (some c) (some m) s.t_fine (no_data fl)).1
          (heard_others c m s.t_fine (no_data fl)) in
      let of = λ (G : Type 0) (p : EnvData F → G). ap (λ (e : EnvData F). p (after i s e)) quiet in
      (
        (of F (λ e. e.temperature) ∙ a, of F (λ e. e.humidity) ∙ b, of F (λ e. e.pressure) ∙ d),
        (of ℕ (λ e. e.co2_ppm) ∙ f, of ℕ (λ e. e.tvoc_ppb) ∙ g, of F (λ e. e.ambient_light) ∙ k),
        refl,
      )
