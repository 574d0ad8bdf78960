-- ===== src/Examples/Sensors.antt =====
-- Touch pads, microphone and localization on concrete inputs.
use mathlib.Core.Option
use companion_robot.Base.{ℕ, ◌≡◌, refl, true, false, some, none, [], ◌∷◌, arith, not, ◌||◌}
use companion_robot.Base.Int.{ℤ, pos, ◌+ℤ◌}
use companion_robot.Base.Signed.{◌*ℤ◌, quotient}
use companion_robot.Motion.MotorCtl.{stop}
use companion_robot.Perception.Touch.{ZoneState, PadReading, fresh_zone}
use companion_robot.Motion.Obstacle.{TofReading}
use companion_robot.Perception.Tof.{InitAnswers, RangeAnswers, tof_init}
use companion_robot.Perception.Ranging.{keeps_address, addresses_lost}
use companion_robot.Perception.Debounce.{IsPad}
use companion_robot.Perception.Microphone.{Mic, MicInputs}
use companion_robot.Perception.AudioBuffers.{IsReady}
use companion_robot.Localization.Estimate.{
  Loc, LocInputs, looks_stopped, accel_mag, command_to_velocity, localization_init, yaw_rate,
}
use companion_robot.Localization.Heading.{Inside}
use companion_robot.Localization.Standstill.{still, heading, Steady, run_loc, run_loc-still}
use companion_robot.Examples.Fixed.{thousandths, turns, sums}

abbrev pad : ZoneState
pad = record fresh_zone { baseline = 1000 }

abbrev finger : ℕ → PadReading
finger raw = record { raw = raw; at_change = 40; at_hold = 40 }

pad-IsPad : IsPad pad
pad-IsPad = record { waiting = omega arith; baseline_u16 = omega arith }

abbrev held_pad : ZoneState
held_pad = record pad { touched = true; debounce_ctr = 1 }

abbrev lifted : PadReading
lifted = record { raw = 900; at_change = 700; at_hold = 701 }

abbrev good : InitAnswers
good = record { model_id = some 0xEE; addressed = true }

addresses_lost_example :
    (keeps_address 0 (tof_init good good good).1 ≡ false)
    × (keeps_address 1 (tof_init good good good).1 ≡ false)
    × ((keeps_address 2 (tof_init good good good).1 || not (tof_init good good good).0.2) ≡ true)
addresses_lost_example = addresses_lost good good good

abbrev at_30_cm : RangeAnswers
at_30_cm = record { status = some 1; range_buf = some (1, 44) }

abbrev silent : RangeAnswers
silent = record { status = none; range_buf = none }

abbrev middle_missing : TofReading
middle_missing = record { mm0 = 300; mm1 = 0; mm2 = 300 }

abbrev mic : Mic ℕ
mic = record {
  i2s_ok = true;
  noise_floor = 100000;
  speech_active = false;
  speech_start_ms = 0;
  dma_buf = λ j. [];
  active_buf = 0;
  queue = [];
}

mic-IsReady : IsReady 1 mic
mic-IsReady = record { works = refl; alternates = omega arith; short = λ j. omega arith }

abbrev one_sample : ℕ → MicInputs
one_sample n = record { samples = some (pos n ∷ []); now_ms = 0; ticks = 0 }

-- A reading that turns by 2 radians in a second, without an acceleration.
abbrev turning : LocInputs ℤ
turning = record {
  incoming = none;
  imu = some (record { accel_x = pos 0; accel_y = pos 0; accel_z = pos 0; gyro_z = pos 2000 });
  tof = none;
  locked = true;
  locked_for_tof = true;
  now = 20;
}

-- At 179 degrees, which the turns of 2.28 degrees carry past the half turn.
abbrev nearly_round : Loc ℤ
nearly_round =
    let l = localization_init thousandths 0 in
    record l { pose = record l.pose { yaw_deg = pos 179000 } }

turning-Steady : Steady thousandths turning
unfolding yaw_rate ◌*ℤ◌ quotient
turning-Steady = (refl, (refl, refl))

nearly_round-Inside : Inside thousandths 180 (heading thousandths nearly_round)
unfolding localization_init
nearly_round-Inside = (refl, refl)

run_loc-still_example :
    Option.map (still thousandths) (run_loc thousandths 2 (turning ∷ (turning ∷ [])) nearly_round)
    ≡ some (true, 40, stop)
unfolding localization_init looks_stopped accel_mag command_to_velocity ◌+ℤ◌ ◌*ℤ◌ quotient
run_loc-still_example =
    run_loc-still thousandths 0 (turning ∷ (turning ∷ [])) nearly_round turns sums
      nearly_round-Inside (turning-Steady, (turning-Steady, tt))
