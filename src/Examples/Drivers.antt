-- ===== src/Examples/Drivers.antt =====
-- Links, servos and lights on concrete inputs. A `float` is a whole number here.
use companion_robot.Base.{
  ℕ, suc, ◌+◌, ◌-◌, ◌*◌, ◌/◌, ◌%◌, ◌≡◌, ltb, if◌then◌else◌, true, false, arith,
}
use companion_robot.Base.Bytes.{zeroed}
use companion_robot.Base.Float.{FloatOps}
use companion_robot.Base.Int.{pos, negsuc}
use companion_robot.Behavior.Engine.{servo_pan, servo_tilt}
use companion_robot.Motion.Servo.{ServoState, servo_init, servo_set_angle, servo_step, step_of}
use companion_robot.Motion.ServoSafety.{IsSafe, servo_init-IsSafe, servo-IsSafe}
use companion_robot.Motion.ServoRamp.{run_servo, servo_arrives}
use companion_robot.Expression.Led.{Color, Lights, knight_rider}

abbrev whole : FloatOps ℕ
whole = record {
  literal = λ n d. n / d;
  of_int = λ n. n;
  to_int = λ n. n;
  plus = λ a b. a + b;
  minus = λ a b. a - b;
  times = λ a b. a * b;
  over = λ a b. a / b;
  negate = λ a. 0;
  fabsf = λ a. a;
  sqrtf = λ a. a;
  sinf = λ a. 0;
  cosf = λ a. 1;
  fmodf = λ a b. a % b;
  fmaxf = λ a b. if ltb a b then b else a;
  fminf = λ a b. if ltb a b then a else b;
  atan2f = λ a b. a;
  less = ltb;
}

servo-IsSafe_example :
    IsSafe servo_tilt (servo_set_angle servo_tilt (negsuc 79) 50 servo_init)
    × IsSafe servo_tilt (servo_step servo_tilt 1 servo_init)
servo-IsSafe_example =
    servo-IsSafe servo_tilt (negsuc 79) 50 1 servo_init (omega arith) (servo_init-IsSafe servo_tilt)

abbrev turning : ServoState
turning = record {
  current_angle = pos 0;
  target_angle = negsuc 29;
  speed_dps = 100;
  active = true;
  duty = 1228;
}

turning-IsSafe : IsSafe servo_pan turning
turning-IsSafe = ground arith

abbrev tenths : FloatOps ℕ
tenths = record whole { times = λ a b. a / 50 }

servo_arrives_example :
    ((run_servo tenths servo_pan (suc 15) turning).current_angle ≡ negsuc 29)
    × ((run_servo tenths servo_pan (suc 15) turning).active ≡ false)
unfolding step_of
servo_arrives_example =
    servo_arrives tenths servo_pan 15 turning (omega arith) turning-IsSafe (omega arith)

abbrev red : Color
red = record { r = 200; g = 0; b = 0 }

abbrev dark : Lights
dark = record {
  rmt_ok = true;
  led_buf = zeroed;
  pattern = record { mode = knight_rider; speed = 100; color = red };
  pattern_active = true;
  pattern_start_ms = 0;
  last_switch = 0;
  shown = zeroed;
}
