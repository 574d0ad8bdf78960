-- ===== src/Motion/Hysteresis.antt =====
-- The hysteresis of the obstacle detection, by the last two readings.
use companion_robot.Base.{
  ℕ, ◌<◌, ◌≤◌, ◌≡◌, Bool, true, false, ◌&&◌, ◌||◌, Option, none, some, arith, ◌∙◌, ◌⊎◌,
}
use companion_robot.Motion.Obstacle.{
  Dirs, Zone, TofReading, obstacle_init, map_tof_to_directions, in_stop_zone, in_slow_zone,
  update_zone, to_cm, obstacle_check,
}

-- A counter that has reached the threshold has set its flag; it is a `uint8_t`, and wraps.
pub record IsCounting (z : Zone) : Type 0 where
  pub stop_u8 : z.stop_counter < 256
  pub slow_u8 : z.slow_counter < 256
  pub stop_set : 2 ≤ z.stop_counter → z.pending_stop ≡ true
  pub slow_set : 2 ≤ z.slow_counter → z.pending_slow ≡ true

pub record AllCounting (z : Dirs Zone) : Type 0 where
  pub front : IsCounting z.front
  pub front_left : IsCounting z.front_left
  pub front_right : IsCounting z.front_right
  pub rear : IsCounting z.rear

pub obstacle_init-AllCounting : AllCounting obstacle_init
unfolding obstacle_init
obstacle_init-AllCounting = ground arith

update_zone-IsCounting : (z : Zone) (cm : ℕ) → IsCounting z → IsCounting (update_zone z cm)
unfolding update_zone
update_zone-IsCounting z cm h = ground arith

-- After two readings the flags say whether both were in the zone, however long a run of such
-- readings is, past the wrap of the counter too.
update_zone_twice :
    (z : Zone) (a b : ℕ)
    → IsCounting z
    → let z' = update_zone (update_zone z a) b in
      (z'.pending_stop ≡ (in_stop_zone a && in_stop_zone b))
      × (z'.pending_slow ≡ (in_slow_zone a && in_slow_zone b))
unfolding update_zone
update_zone_twice z a b h = ground arith

-- The distances that a check of the reading works with.
abbrev pub seen : TofReading → Dirs ℕ
seen t = to_cm (map_tof_to_directions t)

pub obstacle_check-AllCounting :
    (z : Dirs Zone) (r : Option TofReading) (now : ℕ)
    → AllCounting z
    → AllCounting (obstacle_check z r now).0
unfolding obstacle_check
obstacle_check-AllCounting z none now h = h
obstacle_check-AllCounting z (some t) now h = record {
  front = update_zone-IsCounting z.front (seen t).front h.front;
  front_left = update_zone-IsCounting z.front_left (seen t).front_left h.front_left;
  front_right = update_zone-IsCounting z.front_right (seen t).front_right h.front_right;
  rear = update_zone-IsCounting z.rear (seen t).rear h.rear;
}

-- The test holds in some direction of both readings.
abbrev pub in_both : (ℕ → Bool) → Dirs ℕ → Dirs ℕ → Bool
in_both zone a b =
    (zone a.front && zone b.front)
    || ((zone a.front_left && zone b.front_left)
        || ((zone a.front_right && zone b.front_right) || (zone a.rear && zone b.rear)))

-- The flags after two successful checks in turn, by the four directions of both readings, from any
-- counters that the code can have.
two_checks_decide :
    (z : Dirs Zone) (t u : TofReading) (m n : ℕ)
    → AllCounting z
    → let second = (obstacle_check (obstacle_check z (some t) m).0 (some u) n).1 in
      (second.emergency_stop ≡ in_both in_stop_zone (seen t) (seen u))
      × (second.slow_down ≡ in_both in_slow_zone (seen t) (seen u))
unfolding obstacle_check
two_checks_decide z t u m n h =
    let (a, a') = update_zone_twice z.front (seen t).front (seen u).front h.front in
    let (b, b') =
      update_zone_twice z.front_left (seen t).front_left (seen u).front_left h.front_left in
    let (c, c') =
      update_zone_twice z.front_right (seen t).front_right (seen u).front_right h.front_right in
    let (d, d') = update_zone_twice z.rear (seen t).rear (seen u).rear h.rear in
    (rw (a, b, c, d), rw (a', b', c', d'))

or_true : (a b c : Bool) → (a || (b || (c || true))) ≡ true
or_true a b c = ground arith

-- The rear has no sensor: its fixed 51, meant as centimetres, is divided by ten with the
-- millimetres and reads as 5 cm. So from any counters that the code can have, a second successful
-- check in turn sets the emergency flag, whatever the three sensors read.
pub rear_always_stops :
    (z : Dirs Zone) (t u : TofReading) (m n : ℕ)
    → AllCounting z
    → (obstacle_check (obstacle_check z (some t) m).0 (some u) n).1.emergency_stop ≡ true
unfolding map_tof_to_directions
rear_always_stops z t u m n h =
    (two_checks_decide z t u m n h).0
    ∙ or_true (in_stop_zone (seen t).front && in_stop_zone (seen u).front)
        (in_stop_zone (seen t).front_left && in_stop_zone (seen u).front_left)
        (in_stop_zone (seen t).front_right && in_stop_zone (seen u).front_right)

-- The same of the three directions in front.
abbrev pub in_front : (ℕ → Bool) → Dirs ℕ → Dirs ℕ → Bool
in_front zone a b =
    (zone a.front && zone b.front)
    || ((zone a.front_left && zone b.front_left) || (zone a.front_right && zone b.front_right))

rear_never_slows :
    (t u : TofReading)
    → in_both in_slow_zone (seen t) (seen u) ≡ in_front in_slow_zone (seen t) (seen u)
unfolding map_tof_to_directions
rear_never_slows t u = ground arith

-- From any counters that the code can have, the second of two successful checks in turn sets the
-- emergency flag, whatever the three sensors read, since the rear has no sensor and its fixed
-- distance counts as 5 cm. It sets the slow-down flag exactly if one of the three directions in
-- front was 11 to 30 cm in both checks: 10 cm or less does not set it, and earlier readings do not
-- count.
pub second_check_flags :
    (z : Dirs Zone) (t u : TofReading) (m n : ℕ)
    → AllCounting z
    → let second = (obstacle_check (obstacle_check z (some t) m).0 (some u) n).1 in
      (second.emergency_stop ≡ true) × (second.slow_down ≡ in_front in_slow_zone (seen t) (seen u))
second_check_flags z t u m n h =
    (rear_always_stops z t u m n h, (two_checks_decide z t u m n h).1 ∙ rear_never_slows t u)

-- A side sensor that fails reads 0 and hides the front: the front distance is 0 whatever the other
-- sensors read, which is outside both zones.
pub failed_side_hides_front :
    (t : TofReading)
    → (t.mm1 ≡ 0) ⊎ (t.mm2 ≡ 0)
    → ((seen t).front ≡ 0)
      × (in_stop_zone (seen t).front ≡ false)
      × (in_slow_zone (seen t).front ≡ false)
unfolding map_tof_to_directions
failed_side_hides_front t h = ground arith
