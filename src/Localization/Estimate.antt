-- ===== src/Localization/Estimate.antt =====
-- The estimator and its task: firmware/components/localization/localization.c. A `float` is a
-- parameter, with its operations.
use companion_robot.Base.{
  ℕ, zero, suc, ◌+◌, ◌/◌, Bool, true, false, ◌&&◌, ◌||◌, Option, none, some, ltb, leb, ◌==◌,
  if◌then◌else◌, add32, sub32,
}
use companion_robot.Base.Float.{FloatOps}
use companion_robot.Motion.MotorCtl.{MotorCmd, move, move_to, stop, bcp_dir_stop}

-- `pose_t`.
pub record Pose (F : Type 0) : Type 0 where
  pub x_cm : F
  pub y_cm : F
  pub yaw_deg : F
  pub vx_cm_s : F
  pub vy_cm_s : F
  pub vyaw_deg_s : F
  pub timestamp_ms : ℕ

-- `localization_t`, of the covariances the field that is used, with the static variables of
-- `apply_tof_correction` and the task.
pub record Loc (F : Type 0) : Type 0 where
  pub pose : Pose F
  pub pose_covariance : ℕ → F
  pub last_update_ms : ℕ
  pub last_tof_correct_ms : ℕ
  pub initialized : Bool
  pub zero_velocity : Bool
  pub zero_velocity_duration_ms : ℕ
  pub yaw_offset : F
  pub last_tof_dist : F
  pub last_tof_ms : ℕ
  pub tof_counter : ℕ
  pub current_cmd : MotorCmd

-- What the task reads of `imu_data_t` and `tof_reading_t`.
pub record Imu (F : Type 0) : Type 0 where
  pub accel_x : F
  pub accel_y : F
  pub accel_z : F
  pub gyro_z : F

pub record FrontRange : Type 0 where
  pub front_mm : ℕ
  pub timestamp_ms : ℕ

-- The three velocities that a command stands for.
pub record Velocity (F : Type 0) : Type 0 where
  pub vx : F
  pub vy : F
  pub vyaw : F

-- What a round reads: the queue, the sensors, whether each of the two locks is taken, the time.
pub record LocInputs (F : Type 0) : Type 0 where
  pub incoming : Option MotorCmd
  pub imu : Option (Imu F)
  pub tof : Option FrontRange
  pub locked : Bool
  pub locked_for_tof : Bool
  pub now : ℕ

module _ {F : Type 0} (fl : FloatOps F) where
  abbrev pub lit : ℕ → ℕ → F
  lit n d = fl.literal n d

  abbrev pub pi : F
  pi = fl.literal 314159265 100000000

  abbrev pub deg_to_rad : F → F
  deg_to_rad deg = fl.over (fl.times deg pi) (lit 180 1)

  abbrev pub rad_to_deg : F → F
  rad_to_deg rad = fl.over (fl.times rad (lit 180 1)) pi

  abbrev pub sq : F → F
  sq x = fl.times x x

  -- The directions of the switch, in the order of `bcp_direction_t`.
  unfoldable pub direction_velocity : (direction : ℕ) → (speed : F) → Velocity F
  direction_velocity d speed =
      let o = lit 0 1 in
      let back = fl.negate speed in
      let turn : F → Velocity F =
        λ s. record { vx = o; vy = o; vyaw = rad_to_deg (fl.over s (lit 12 1)) } in
      let drive : F → F → Velocity F = λ x y. record { vx = x; vy = y; vyaw = rad_to_deg o } in
      if d == 0
      then drive speed o
      else if d == 1
      then drive back o
      else if d == 2
      then drive o speed
      else if d == 3
      then drive o back
      else if d == 4
      then turn speed
      else if d == 5
      then turn back
      else if d == 7
      then drive speed speed
      else if d == 8
      then drive speed back
      else if d == 9
      then drive back speed
      else if d == 10
      then drive back back
      else drive o o

  abbrev pub at_rest : Velocity F
  at_rest = record { vx = lit 0 1; vy = lit 0 1; vyaw = lit 0 1 }

  unfoldable pub command_to_velocity : MotorCmd → Velocity F
  command_to_velocity (move direction speed duration) =
      let v = fl.times (fl.over (fl.of_int speed) (lit 255 1)) (lit 40 1) in
      if direction == bcp_dir_stop then at_rest else direction_velocity direction v
  command_to_velocity (move_to x y speed) = at_rest
  command_to_velocity stop = at_rest

  -- The two loops that wrap the heading, on fuel.
  unfoldable pub wrap_down : ℕ → F → Option F
  wrap_down zero yaw = none
  wrap_down (suc n) yaw =
      let rest = wrap_down n (fl.minus yaw (lit 360 1)) in
      if fl.less (lit 180 1) yaw then rest else some yaw

  unfoldable pub wrap_up : ℕ → F → Option F
  wrap_up zero yaw = none
  wrap_up (suc n) yaw =
      let rest = wrap_up n (fl.plus yaw (lit 360 1)) in
      if fl.less yaw (fl.negate (lit 180 1)) then rest else some yaw

  unfoldable pub wrap_yaw : ℕ → F → Option F
  wrap_yaw fuel yaw = elim (wrap_down fuel yaw) [ none ↦ none | some y ↦ wrap_up fuel y ]

  -- The growth of the covariance `i`: a velocity's from 3 on, and the heading's twice.
  abbrev pub inflated : (dt_s : F) → (ℕ → F) → ℕ → F
  inflated dt_s c i =
      let q = if ltb i 3 then lit 5 10 else lit 1 1 in
      let grown = fl.plus (c i) (sq (fl.times q dt_s)) in
      if i == 2 then fl.plus grown (sq (fl.times (lit 3 10) dt_s)) else grown

  abbrev pub blend : F → F → F
  blend new old = fl.plus (fl.times (lit 7 10) new) (fl.times (fl.minus (lit 1 1) (lit 7 10)) old)

  unfoldable pub ekf_predict :
      (fuel : ℕ) (dt_s : F) → Velocity F → (imu_yaw_rate : F) → Loc F → Option (Loc F)
  ekf_predict fuel dt_s odom imu_yaw_rate l =
      let s = l.pose in
      let yaw_rad = deg_to_rad s.yaw_deg in
      let part : F → F → F = λ v k. fl.times (fl.times v k) dt_s in
      let x =
        fl.plus s.x_cm
          (fl.minus (part s.vx_cm_s (fl.cosf yaw_rad)) (part s.vy_cm_s (fl.sinf yaw_rad))) in
      let y =
        fl.plus s.y_cm
          (fl.plus (part s.vx_cm_s (fl.sinf yaw_rad)) (part s.vy_cm_s (fl.cosf yaw_rad))) in
      elim (wrap_yaw fuel (fl.plus s.yaw_deg (fl.times imu_yaw_rate dt_s))) [
        | none ↦ none
        | some yaw ↦ some (record l {
          pose = record s {
            x_cm = x;
            y_cm = y;
            yaw_deg = yaw;
            vx_cm_s = blend odom.vx s.vx_cm_s;
            vy_cm_s = blend odom.vy s.vy_cm_s;
            vyaw_deg_s = blend odom.vyaw s.vyaw_deg_s;
          };
          pose_covariance = inflated dt_s l.pose_covariance;
        })
      ]

  -- The test of `detect_zero_velocity`.
  unfoldable pub looks_stopped : Velocity F → (imu_accel_mag : F) → Bool
  looks_stopped odom imu_accel_mag =
      let slow = fl.times (lit 2 100) (lit 40 1) in
      fl.less (fl.fabsf odom.vx) slow
      && (fl.less (fl.fabsf odom.vy) slow
          && (fl.less (fl.fabsf odom.vyaw) (lit 5 10)
              && fl.less imu_accel_mag (fl.times (lit 15 100) (lit 981 100))))

  abbrev pub damped : F → F
  damped v = fl.times v (fl.minus (lit 1 1) (lit 3 10))

  unfoldable pub detect_zero_velocity : Velocity F → (imu_accel_mag : F) → Loc F → Loc F
  detect_zero_velocity odom imu_accel_mag l =
      let s = l.pose in
      let slower = record s {
        vx_cm_s = damped s.vx_cm_s;
        vy_cm_s = damped s.vy_cm_s;
        vyaw_deg_s = damped s.vyaw_deg_s;
      } in
      if looks_stopped odom imu_accel_mag
      then record l {
        pose = slower;
        zero_velocity = true;
        zero_velocity_duration_ms = if l.zero_velocity then l.zero_velocity_duration_ms else 0;
      }
      else record l { zero_velocity = false; zero_velocity_duration_ms = 0 }

  -- The correction of the position by the rate of the front distance.
  unfoldable pub nudge : (front_dist now : ℕ) → Loc F → Loc F
  nudge front_dist now l =
      let dt_s = fl.over (fl.of_int (sub32 now l.last_tof_ms)) (lit 1000 1) in
      let tof_rate = fl.over (fl.minus l.last_tof_dist (fl.of_int front_dist)) dt_s in
      let vel_diff = fl.minus tof_rate l.pose.vx_cm_s in
      let s = l.pose in
      let moved = record s {
        x_cm = fl.plus s.x_cm (fl.times (fl.times vel_diff dt_s) (lit 3 10));
      } in
      if ltb 0 l.last_tof_ms
        && (fl.less (lit 5 100) dt_s
            && (fl.less dt_s (lit 2 1) && fl.less (lit 10 1) (fl.fabsf vel_diff)))
      then record l { pose = moved }
      else l

  unfoldable pub apply_tof_correction : Option FrontRange → Loc F → Loc F
  apply_tof_correction none l = l
  apply_tof_correction (some t) l =
      let front_dist = t.front_mm / 10 in
      if ltb front_dist 5 || ltb 200 front_dist
      then l
      else if fl.less (lit 30 1) (fl.fabsf l.pose.yaw_deg)
      then l
      else record (nudge front_dist t.timestamp_ms l) {
        last_tof_dist = fl.of_int front_dist;
        last_tof_ms = t.timestamp_ms;
        last_tof_correct_ms = t.timestamp_ms;
      }

  abbrev pub zero_pose : Pose F
  zero_pose = record {
    x_cm = lit 0 1;
    y_cm = lit 0 1;
    yaw_deg = lit 0 1;
    vx_cm_s = lit 0 1;
    vy_cm_s = lit 0 1;
    vyaw_deg_s = lit 0 1;
    timestamp_ms = 0;
  }

  abbrev pub initial_covariance : ℕ → F
  initial_covariance i = if ltb i 3 then lit 25 1 else lit 0 1

  -- `localization_init`, with the static variables and the task's command as they start.
  unfoldable pub localization_init : (now : ℕ) → Loc F
  localization_init now = record {
    pose = zero_pose;
    pose_covariance = initial_covariance;
    last_update_ms = now;
    last_tof_correct_ms = 0;
    initialized = true;
    zero_velocity = false;
    zero_velocity_duration_ms = 0;
    yaw_offset = lit 0 1;
    last_tof_dist = lit 0 1;
    last_tof_ms = 0;
    tof_counter = 0;
    current_cmd = stop;
  }

  unfoldable pub localization_get_pose : (locked : Bool) → Loc F → Option (Pose F)
  localization_get_pose locked l = if l.initialized && locked then some l.pose else none

  unfoldable pub localization_reset_origin : (locked : Bool) → Loc F → Loc F
  localization_reset_origin locked l =
      if locked
      then record l {
        pose = record zero_pose { yaw_deg = l.pose.yaw_deg };
        pose_covariance = initial_covariance;
        yaw_offset = lit 0 1;
      }
      else l

  unfoldable pub localization_set_pose : (locked : Bool) → Pose F → Loc F → Loc F
  localization_set_pose locked p l =
      if locked then record l { pose = p; yaw_offset = lit 0 1 } else l

  -- The yaw rate and the magnitude of the acceleration; both 0 with no reading.
  unfoldable pub yaw_rate : Option (Imu F) → F
  yaw_rate none = lit 0 1
  yaw_rate (some i) = rad_to_deg i.gyro_z

  unfoldable pub accel_mag : Option (Imu F) → F
  accel_mag none = lit 0 1
  accel_mag (some i) = fl.sqrtf (fl.plus (fl.plus (sq i.accel_x) (sq i.accel_y)) (sq i.accel_z))

  abbrev pub dt : F
  dt = fl.over (lit 1 1) (fl.of_int 50)

  -- "EKF predict" under the lock.
  unfoldable pub predict_locked : (fuel : ℕ) → LocInputs F → Loc F → Option (Loc F)
  predict_locked fuel i l =
      let predicted = ekf_predict fuel dt (command_to_velocity l.current_cmd) (yaw_rate i.imu) l in
      let stamped : Loc F → Loc F = λ p. record p {
        pose = record p.pose { timestamp_ms = i.now };
        last_update_ms = i.now;
        zero_velocity_duration_ms =
            if p.zero_velocity
            then add32 p.zero_velocity_duration_ms (fl.to_int (fl.times dt (lit 1000 1)))
            else p.zero_velocity_duration_ms;
      } in
      if i.locked then elim predicted [ none ↦ none | some p ↦ some (stamped p) ] else some l

  -- "ToF correction (at lower rate)".
  unfoldable pub correct_rarely : LocInputs F → Loc F → Loc F
  correct_rarely i l =
      let due = record l { tof_counter = 0 } in
      if leb 5 (l.tof_counter + 1)
      then if i.locked_for_tof then apply_tof_correction i.tof due else due
      else record l { tof_counter = l.tof_counter + 1 }

  -- The command for the odometry.
  unfoldable pub latest : Option MotorCmd → Loc F → Loc F
  latest none l = l
  latest (some c) l = record l { current_cmd = c }

  -- A round of `task_localization`; `none` means that the fuel of the wrapping loops ran out.
  unfoldable pub loc_round : (fuel : ℕ) → LocInputs F → Loc F → Option (Loc F)
  loc_round fuel i l =
      let l1 = latest i.incoming l in
      let l2 = detect_zero_velocity (command_to_velocity l1.current_cmd) (accel_mag i.imu) l1 in
      elim (predict_locked fuel i l2) [ none ↦ none | some l3 ↦ some (correct_rarely i l3) ]
