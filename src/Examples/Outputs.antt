-- ===== src/Examples/Outputs.antt =====
-- Face, loudspeaker, wheels, reporter and further sensors on concrete inputs. A `float` is a number
-- of thousandths.
use mathlib.Core.Option
use companion_robot.Base.{
  ℕ, ◌/◌, ◌≡◌, refl, leb, length, true, false, some, none, List, [], ◌∷◌, ◌++◌, replicate, arith,
  if◌then◌else◌,
}
use companion_robot.Base.Bytes.{Memory}
use companion_robot.Base.Int.{ℤ, pos, negsuc, ◌+ℤ◌, ◌-ℤ◌}
use companion_robot.Base.Signed.{◌*ℤ◌, quotient}
use companion_robot.Expression.Face.{FaceState, face_start, face_neutral, face_set_expression}
use companion_robot.Expression.FacePages.{held_after, face_row, four_rows_remain}
use companion_robot.Expression.Speaker.{
  played, speaker_play_file, Speaker, SpeakerStep, enqueue, round, run_speaker,
}
use companion_robot.Expression.Playback.{joined, plays_data, IsBalanced, tts_in_turn}
use companion_robot.Motion.MotorCtl.{Motor, MotorInputs, no_pose, move_to, motor_init, resting}
use companion_robot.Motion.Wheels.{Pid, all_four, Drive, pid_reset, set_motor_pwm}
use companion_robot.Motion.Creep.{IsNeutral, Expires, held, run_wheels, rest_creeps}
use companion_robot.Perception.Imu.{
  ImuState, ImuInputs, imu_init, run_imu, imu_get_latest, zero_data, for_localization,
}
use companion_robot.Perception.Blind.{missing_sensor_rests}
use companion_robot.Localization.Estimate.{Pose, zero_pose, at_rest, looks_stopped, accel_mag}
use companion_robot.Station.ChargeCtl.{CtlState}
use companion_robot.Station.Loop.{Report}
use companion_robot.Station.Reporter.{Reporter, Link, reporter_start, run_reporter}
use companion_robot.Station.Reports.{reports_in_order}
use companion_robot.Examples.Fixed.{thousandths}

abbrev lit_up : FaceState
lit_up = record face_start { display_ok = true }

four_rows_remain_example :
    held_after 2 0 [] (face_set_expression 0 lit_up).1 ≡ face_row face_neutral 7
four_rows_remain_example =
    four_rows_remain 0 2 0 face_neutral [] lit_up refl (omega arith) refl (omega arith)

abbrev ramp : Memory
ramp i = i

abbrev full_reads : ℕ → List ℕ → ℕ
full_reads asked rest = if leb asked (length rest) then asked else length rest

-- Mono, 16 bits, two bytes in a block.
abbrev wav : List ℕ
wav =
    replicate 20 0
    ++ (1 ∷ 0 ∷ [])
    ++ (replicate 10 0
        ++ (2 ∷ 0 ∷ 16 ∷ 0 ∷ [])
        ++ (replicate 4 0 ++ (4 ∷ 0 ∷ 0 ∷ 0 ∷ 9 ∷ 8 ∷ 7 ∷ 6 ∷ 5 ∷ [])))

plays_data_example :
    (chunks : List (List ℕ)) × (speaker_play_file full_reads true true 5 (some wav)
      ≡ some (played chunks))
    × (joined chunks ≡ 9 ∷ 8 ∷ 7 ∷ 6 ∷ [])
plays_data_example =
    plays_data full_reads 5 wav (λ asked rest. refl) (omega arith) refl refl (omega arith)

abbrev busy : Speaker
busy = record { i2s_ok = true; tts_queue = (7 ∷ []) ∷ []; allocated = 1 }

abbrev busy_steps : List SpeakerStep
busy_steps = enqueue true (1 ∷ []) ∷ round ∷ enqueue true (2 ∷ []) ∷ []

tts_in_turn_example :
    ((run_speaker busy_steps busy).1 ≡ (7 ∷ []) ∷ []) × IsBalanced (run_speaker busy_steps busy).0
tts_in_turn_example =
    tts_in_turn busy_steps busy refl (record { freed_once = refl; in_room = omega arith })
      (omega arith)

abbrev tenth : ℕ → ℕ
tenth ms = ms / 10

abbrev go : MotorInputs
go = record {
  incoming = some (move_to 100 0 200);
  at_receive = 5;
  emergency = false;
  slow_down = false;
  at_expiry = 6;
  nav = no_pose;
}

abbrev still_drive : Drive ℤ
still_drive = record {
  pid = all_four (pid_reset thousandths);
  pwm = all_four (record { in1 = 0; in2 = 0 });
  move_to_integral = pos 0;
  move_to_prev_error = pos 0;
}

-- Past the target, at a heading of -170 degrees: the error of 350 degrees wraps.
abbrev behind : Pose ℤ
behind = record (zero_pose thousandths) { x_cm = pos 300000; yaw_deg = negsuc 169999 }

wound_up-IsNeutral : IsNeutral thousandths (pos 1000)
unfolding ◌+ℤ◌ ◌-ℤ◌ ◌*ℤ◌ quotient
wound_up-IsNeutral = record {
  zero_zero = refl;
  not_fast = refl;
  not_back = refl;
  zero_dt = refl;
  zero_over = refl;
  zero_kp = refl;
  zero_kd = refl;
  keeps = refl;
  not_below = refl;
  not_above = refl;
  left = refl;
  right = refl;
}

abbrev nothing_new : MotorInputs
nothing_new = record go { incoming = none }

-- The last round of a timed move at speed 100 ends at the tick 6.
abbrev timed_out : Motor
timed_out = record motor_init { cmd_active = true; current_speed = 100; cmd_end_tick = 6 }

abbrev wound_up : Pid ℤ
wound_up = record { integral = pos 1000; prev_error = pos 39; setpoint = pos 392 }

abbrev winding : Drive ℤ
winding = record still_drive { pid = all_four wound_up }

timed_out-Expires : Expires thousandths nothing_new timed_out
unfolding motor_init
timed_out-Expires = record {
  moving = refl;
  no_target = refl;
  no_emergency = refl;
  timed = omega arith;
  over = omega arith;
}

-- Of 1023, 102.
rest_creeps_example :
    run_wheels thousandths tenth 2 (nothing_new ∷ nothing_new ∷ []) none timed_out winding
    ≡ some (
      record timed_out { cmd_active = false; wheels = resting },
      record winding {
        pid = held thousandths (all_four (pos 1000));
        pwm = all_four (record { in1 = 102; in2 = 0 });
      },
    )
unfolding set_motor_pwm motor_init ◌*ℤ◌ quotient
rest_creeps_example =
    let n = wound_up-IsNeutral in
    rest_creeps thousandths tenth 2 nothing_new nothing_new [] none timed_out winding
      timed_out-Expires ((refl, refl), ((refl, refl), tt)) (n, n, n, n)

abbrev fresh_imu : ImuState ℤ
fresh_imu = record {
  imu_data = zero_data thousandths;
  cal_offset = λ k. pos 0;
  pitch = pos 0;
  roll = pos 0;
  yaw = pos 0;
  last_gyro_us = 0;
  err_count = 0;
}

abbrev no_answer : ImuInputs
no_answer = record { raw = none; now_us = 5000; now_ms = 5 }

missing_sensor_rests_example :
    let seen =
      imu_get_latest thousandths
        (run_imu thousandths (no_answer ∷ []) (imu_init thousandths none 0 fresh_imu)) in
    (seen ≡ some (zero_data thousandths))
    × (looks_stopped thousandths
          (at_rest thousandths)
          (accel_mag thousandths (Option.map for_localization seen))
        ≡ true)
unfolding ◌+ℤ◌ ◌*ℤ◌ quotient
missing_sensor_rests_example =
    missing_sensor_rests thousandths none 0 (no_answer ∷ []) fresh_imu
      (λ e. Option.none-ne-some _ e) (refl, tt) refl refl refl refl (refl, refl, refl)

abbrev at_noon : Report
at_noon = record {
  station_id = 1;
  charge_state = CtlState.idle;
  v_mv = 5000;
  i_mv = 100;
  uptime_s = 43200;
}

abbrev reporting : Reporter
reporting = record reporter_start { started = true; queue = at_noon ∷ [] }

abbrev good_link : Link
good_link = record { connects = true; sends = true }

reports_in_order_example : (run_reporter (good_link ∷ []) reporting).1 ≡ some at_noon ∷ []
reports_in_order_example =
    reports_in_order (at_noon ∷ []) (good_link ∷ []) reporting refl refl refl refl
      ((refl, refl), tt)
