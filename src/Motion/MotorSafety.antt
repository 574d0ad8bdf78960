-- ===== src/Motion/MotorSafety.antt =====
-- What the motor task keeps and when it drives: firmware/components/motion/motor.c.
use companion_robot.Base.{
  ℕ, ◌≡◌, ◌≢◌, refl, sym, Bool, true, false, Option, none, some, arith, Bool-cases, inl, inr, ◌∙◌,
}
use companion_robot.Motion.Obstacle.{Dirs, Zone, TofReading, obstacle_check}
use companion_robot.Motion.Hysteresis.{AllCounting, rear_always_stops}
use companion_robot.Motion.MotorCtl.{
  bcp_dir_stop, MotorCmd, move, move_to, stop, braked, following, Motor, motor_init, motor_move_to,
  motor_cancel_move_to, Nav, no_pose, arrived, away, MotorInputs, receive, watch_emergency, expire,
  navigate, drive, motor_tick,
}

-- One kind of motion at a time, and no drive of the wheels under the latched emergency.
pub record IsConsistent (m : Motor) : Type 0 where
  pub one_motion : m.cmd_active ≡ true → m.move_to_active ≡ false
  pub latch_brakes : m.emergency_stop ≡ true → m.wheels ≡ braked

pub motor_init-IsConsistent : IsConsistent motor_init
unfolding motor_init
motor_init-IsConsistent = ground arith

pub motor_move_to-IsConsistent :
    (x y speed : ℕ) (m : Motor) → IsConsistent m → IsConsistent (motor_move_to x y speed m)
unfolding motor_move_to
motor_move_to-IsConsistent x y speed m h = ground arith

pub motor_cancel_move_to-IsConsistent :
    (m : Motor) → IsConsistent m → IsConsistent (motor_cancel_move_to m)
unfolding motor_cancel_move_to
motor_cancel_move_to-IsConsistent m h = ground arith

receive-IsConsistent :
    (ticks : ℕ → ℕ) (c : Option MotorCmd) (now : ℕ) (m : Motor)
    → IsConsistent m
    → IsConsistent (receive ticks c now m)
unfolding receive
receive-IsConsistent ticks none now m h = h
receive-IsConsistent ticks (some stop) now m h = ground arith
receive-IsConsistent ticks (some (move_to x y speed)) now m h =
    motor_move_to-IsConsistent x y speed m h
receive-IsConsistent ticks (some (move direction speed duration)) now m h = ground arith

watch_emergency-IsConsistent :
    (e : Bool) (m : Motor) → IsConsistent m → IsConsistent (watch_emergency e m)
unfolding watch_emergency
watch_emergency-IsConsistent true m h = ground arith
watch_emergency-IsConsistent false m h = ground arith

watch_emergency_flag : (e : Bool) (m : Motor) → (watch_emergency e m).emergency_stop ≡ e
unfolding watch_emergency
watch_emergency_flag true m = ground arith
watch_emergency_flag false m = refl

expire-IsConsistent : (now : ℕ) (m : Motor) → IsConsistent m → IsConsistent (expire now m)
unfolding expire
expire-IsConsistent now m h = ground arith

expire_flag : (now : ℕ) (m : Motor) → (expire now m).emergency_stop ≡ m.emergency_stop
unfolding expire
expire_flag now m = ground arith

drive-IsConsistent :
    (nav : Nav) (slow : Bool) (m : Motor)
    → m.emergency_stop ≡ false
    → IsConsistent m
    → IsConsistent (drive nav slow m)
unfolding drive navigate
drive-IsConsistent no_pose slow m e h = ground arith
drive-IsConsistent arrived slow m e h = ground arith
drive-IsConsistent away slow m e h = ground arith

-- A tick, whatever it reads, keeps two properties: at most one of the timed or continuous command
-- and the move to a position is active, and the wheels are braked whenever the emergency is
-- latched.
pub motor_tick-IsConsistent :
    (ticks : ℕ → ℕ) (i : MotorInputs) (m : Motor)
    → IsConsistent m
    → IsConsistent (motor_tick ticks i m)
unfolding motor_tick
motor_tick-IsConsistent ticks i m h =
    let r = receive ticks i.incoming i.at_receive m in
    let k =
      watch_emergency-IsConsistent i.emergency r
        (receive-IsConsistent ticks i.incoming i.at_receive m h) in
    let w = watch_emergency i.emergency r in
    elim (Bool-cases w.emergency_stop) [
      | inl e ↦ simp (e) k
      | inr e ↦ simp (e) (
          drive-IsConsistent i.nav i.slow_down (expire i.at_expiry w)
            (expire_flag i.at_expiry w ∙ e) (expire-IsConsistent i.at_expiry w k))
    ]

drive_flag :
    (nav : Nav) (slow : Bool) (m : Motor) → (drive nav slow m).emergency_stop ≡ m.emergency_stop
unfolding drive navigate
drive_flag no_pose slow m = ground arith
drive_flag arrived slow m = ground arith
drive_flag away slow m = ground arith

tick_flag :
    (ticks : ℕ → ℕ) (i : MotorInputs) (m : Motor)
    → (motor_tick ticks i m).emergency_stop ≡ i.emergency
unfolding motor_tick
tick_flag ticks i m =
    let r = receive ticks i.incoming i.at_receive m in
    let w = watch_emergency i.emergency r in
    let f = watch_emergency_flag i.emergency r in
    elim (Bool-cases w.emergency_stop) [
      | inl e ↦ simp (e) (sym e ∙ f)
      | inr e ↦
          simp (e)
            (drive_flag i.nav i.slow_down (expire i.at_expiry w) ∙ (expire_flag i.at_expiry w ∙ f))
    ]

-- Whatever command a tick from a consistent state receives, if it reads the emergency flag set
-- then the emergency is latched and the wheels are braked after it.
emergency_brakes :
    (ticks : ℕ → ℕ) (i : MotorInputs) (m : Motor)
    → IsConsistent m
    → i.emergency ≡ true
    → ((motor_tick ticks i m).emergency_stop ≡ true) × ((motor_tick ticks i m).wheels ≡ braked)
emergency_brakes ticks i m h e =
    let f = tick_flag ticks i m ∙ e in (f, (motor_tick-IsConsistent ticks i m h).latch_brakes f)

-- The fixed rear distance of the obstacle detection keeps the robot from driving: from any
-- consistent motor state and any counters that the code can have, after a second successful
-- check, a tick that reads its emergency flag leaves the wheels braked, whatever the sensors and
-- the commands are.
pub robot_stays_braked :
    (ticks : ℕ → ℕ) (i : MotorInputs) (m : Motor) (z : Dirs Zone) (t u : TofReading) (a b : ℕ)
    → IsConsistent m
    → AllCounting z
    → i.emergency ≡ (obstacle_check (obstacle_check z (some t) a).0 (some u) b).1.emergency_stop
    → (motor_tick ticks i m).wheels ≡ braked
robot_stays_braked ticks i m z t u a b h c e =
    (emergency_brakes ticks i m h (e ∙ rear_always_stops z t u a b c)).1

-- An active continuous command in a direction.
record HasMove (m : Motor) (direction speed : ℕ) : Type 0 where
  active : m.cmd_active ≡ true
  alone : m.move_to_active ≡ false
  endless : m.cmd_end_tick ≡ 0
  goes : m.current_direction ≡ direction
  fast : m.current_speed ≡ speed

held_command :
    (ticks : ℕ → ℕ) (i : MotorInputs) (m : Motor) (direction speed : ℕ)
    → m.emergency_stop ≡ true
    → i.emergency ≡ true
    → i.incoming ≡ some (move direction speed 0)
    → HasMove (motor_tick ticks i m) direction speed
unfolding motor_tick receive watch_emergency
held_command ticks i m direction speed h e c = rw (e, c, h) (ground arith)

starts :
    (ticks : ℕ → ℕ) (j : MotorInputs) (m : Motor) (direction speed : ℕ)
    → HasMove m direction speed
    → direction ≢ bcp_dir_stop
    → j.emergency ≡ false
    → j.incoming ≡ none
    → (motor_tick ticks j m).wheels ≡ following direction speed j.slow_down
unfolding motor_tick receive watch_emergency expire drive
starts ticks j m direction speed k d f n = rw (f, n) (ground arith)

-- A command that arrives while the emergency is latched is kept: a continuous move in a direction
-- starts, without being sent again, at the first tick that reads no emergency and no new command.
held_move_resumes :
    (ticks : ℕ → ℕ) (i j : MotorInputs) (m : Motor) (direction speed : ℕ)
    → m.emergency_stop ≡ true
    → i.emergency ≡ true
    → i.incoming ≡ some (move direction speed 0)
    → direction ≢ bcp_dir_stop
    → j.emergency ≡ false
    → j.incoming ≡ none
    → (motor_tick ticks j (motor_tick ticks i m)).wheels ≡ following direction speed j.slow_down
held_move_resumes ticks i j m direction speed h e c d f n =
    let k = held_command ticks i m direction speed h e c in
    starts ticks j (motor_tick ticks i m) direction speed k d f n
