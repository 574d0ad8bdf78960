-- ===== src/Motion/Timed.antt =====
-- Moves with a duration end: firmware/components/motion/motor.c.
use companion_robot.Base.{
  ℕ, ◌<◌, ◌≤◌, ◌≡◌, Bool, true, false, none, some, if◌then◌else◌, add32, arith, List, [], ◌∷◌, All,
  ◌⊎◌,
}
use companion_robot.Motion.MotorCtl.{
  move, braked, resting, Motor, Nav, MotorInputs, receive, watch_emergency, expire, drive,
  motor_tick, run_ticks,
}
use companion_robot.Motion.MotorSafety.{IsConsistent, motor_tick-IsConsistent}

run_ticks-IsConsistent :
    (ticks : ℕ → ℕ) (is : List MotorInputs) (m : Motor)
    → IsConsistent m
    → IsConsistent (run_ticks ticks is m)
unfolding run_ticks
run_ticks-IsConsistent ticks [] m h = h
run_ticks-IsConsistent ticks (i ∷ is) m h =
    run_ticks-IsConsistent ticks is (motor_tick ticks i m) (motor_tick-IsConsistent ticks i m h)

-- No other motion than one that ends at the tick count.
record EndsAt (m : Motor) (end : ℕ) : Type 0 where
  alone : m.move_to_active ≡ false
  ends : m.cmd_active ≡ true → m.cmd_end_tick ≡ end

watch_emergency-EndsAt :
    (e : Bool) (m : Motor) (end : ℕ) → EndsAt m end → EndsAt (watch_emergency e m) end
unfolding watch_emergency
watch_emergency-EndsAt true m end k = ground arith
watch_emergency-EndsAt false m end k = ground arith

finish-EndsAt :
    (nav : Nav) (slow : Bool) (now : ℕ) (m : Motor) (end : ℕ)
    → EndsAt m end
    → EndsAt (if m.emergency_stop then m else drive nav slow (expire now m)) end
unfolding drive expire
finish-EndsAt nav slow now m end k = ground arith

timed_start :
    (ticks : ℕ → ℕ) (now direction speed duration : ℕ) (m : Motor)
    → 0 < duration
    → EndsAt
        (receive ticks (some (move direction speed duration)) now m)
        (add32 now (ticks duration))
unfolding receive
timed_start ticks now direction speed duration m d = ground arith

quiet_tick-EndsAt :
    (ticks : ℕ → ℕ) (i : MotorInputs) (m : Motor) (end : ℕ)
    → i.incoming ≡ none
    → EndsAt m end
    → EndsAt (motor_tick ticks i m) end
unfolding motor_tick receive
quiet_tick-EndsAt ticks i m end n k = rw (n) (
    finish-EndsAt i.nav i.slow_down i.at_expiry (watch_emergency i.emergency m) end
      (watch_emergency-EndsAt i.emergency m end k))

run_quiet-EndsAt :
    (ticks : ℕ → ℕ) (is : List MotorInputs) (m : Motor) (end : ℕ)
    → All (λ i. i.incoming ≡ none) is
    → EndsAt m end
    → EndsAt (run_ticks ticks is m) end
unfolding run_ticks
run_quiet-EndsAt ticks [] m end q k = k
run_quiet-EndsAt ticks (i ∷ is) m end q k =
    run_quiet-EndsAt ticks is (motor_tick ticks i m) end q.1 (quiet_tick-EndsAt ticks i m end q.0 k)

first_tick-EndsAt :
    (ticks : ℕ → ℕ) (i : MotorInputs) (m : Motor) (direction speed duration : ℕ)
    → i.incoming ≡ some (move direction speed duration)
    → 0 < duration
    → EndsAt (motor_tick ticks i m) (add32 i.at_receive (ticks duration))
unfolding motor_tick
first_tick-EndsAt ticks i m direction speed duration c d =
    let r = receive ticks (some (move direction speed duration)) i.at_receive m in
    let end = add32 i.at_receive (ticks duration) in
    rw (c) (
      finish-EndsAt i.nav i.slow_down i.at_expiry (watch_emergency i.emergency r) end (
        watch_emergency-EndsAt i.emergency r end
          (timed_start ticks i.at_receive direction speed duration m d)))

rests :
    (ticks : ℕ → ℕ) (i : MotorInputs) (m : Motor) (end : ℕ)
    → IsConsistent m
    → EndsAt m end
    → i.incoming ≡ none
    → 0 < end
    → end ≤ i.at_expiry
    → ((motor_tick ticks i m).wheels ≡ braked) ⊎ ((motor_tick ticks i m).wheels ≡ resting)
unfolding motor_tick receive watch_emergency expire drive
rests ticks i m end h k n p l = rw (n) (ground arith)

-- In a consistent motor state, a move with a duration, received at a tick, stops by itself:
-- however many ticks without a new command follow, with or without emergencies, every one that
-- tests the duration at or after the end leaves the wheels braked or with target speed zero. The
-- end is a 32-bit tick count; it must not wrap to 0, which the code reads as "no end".
pub timed_move_ends :
    (ticks : ℕ → ℕ) (i : MotorInputs) (js : List MotorInputs) (j : MotorInputs) (m : Motor)
    → (direction speed duration : ℕ) → IsConsistent m
    → i.incoming ≡ some (move direction speed duration)
    → 0 < duration
    → All (λ q. q.incoming ≡ none) js
    → j.incoming ≡ none
    → 0 < add32 i.at_receive (ticks duration)
    → add32 i.at_receive (ticks duration) ≤ j.at_expiry
    → let after = motor_tick ticks j (run_ticks ticks js (motor_tick ticks i m)) in
      (after.wheels ≡ braked) ⊎ (after.wheels ≡ resting)
timed_move_ends ticks i js j m direction speed duration h c d q n p l =
    let end = add32 i.at_receive (ticks duration) in
    let first = motor_tick ticks i m in
    rests ticks j (run_ticks ticks js first) end
      (run_ticks-IsConsistent ticks js first (motor_tick-IsConsistent ticks i m h))
      (run_quiet-EndsAt ticks js first end q
        (first_tick-EndsAt ticks i m direction speed duration c d))
      n p l
