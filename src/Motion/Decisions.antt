-- ===== src/Motion/Decisions.antt =====
-- The decisions of a round with the wheel speeds: firmware/components/motion/motor.c.
use mathlib.Core.Option
use companion_robot.Base.{◌≤◌, Option, none, some}
use companion_robot.Base.Float.{FloatOps, of_int16}
use companion_robot.Motion.MotorCtl.{Motor}
use companion_robot.Localization.Estimate.{Pose}
use companion_robot.Localization.Heading.{Inside}
use companion_robot.Motion.Wheels.{lit}

module _ {F : Type 0} (fl : FloatOps F) where
  -- The error of the heading toward the target of a `move_to`, before it is wrapped.
  abbrev pub yaw_error : Motor → Pose F → F
  yaw_error m p =
      let dx = fl.minus (of_int16 fl m.target_x) p.x_cm in
      let dy = fl.minus (of_int16 fl m.target_y) p.y_cm in
      fl.minus (fl.over (fl.times (fl.atan2f dy dx) (lit fl 180 1)) (lit fl 314159265 100000000))
        p.yaw_deg

  -- With a pose, the error is at most 540 degrees on either side.
  abbrev pub IsNear : Motor → Option (Pose F) → Type 0
  IsNear m none = 0 ≤ 0
  IsNear m (some p) = Inside fl 540 (yaw_error m p)
