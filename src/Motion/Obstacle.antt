-- ===== src/Motion/Obstacle.antt =====
-- Obstacle detection: firmware/components/motion/obstacle.c.
use companion_robot.Base.{
  ℕ, ◌+◌, ◌%◌, ◌/◌, Bool, true, false, ◌&&◌, ◌||◌, Option, none, some, ltb, leb, if◌then◌else◌,
}

-- An array indexed by `obs_direction_t`.
pub record Dirs (A : Type 0) : Type 0 where
  pub front : A
  pub front_left : A
  pub front_right : A
  pub rear : A

-- One direction's entries in the arrays of `hysteresis_t`.
pub record Zone : Type 0 where
  pub pending_stop : Bool
  pub pending_slow : Bool
  pub stop_counter : ℕ
  pub slow_counter : ℕ
  pub prev_distance : ℕ

-- `obstacle_status_t`.
pub record ObstacleStatus : Type 0 where
  pub distance_cm : Dirs ℕ
  pub emergency_stop : Bool
  pub slow_down : Bool
  pub timestamp_ms : ℕ

-- `tof_reading_t`: the three sensors.
pub record TofReading : Type 0 where
  pub mm0 : ℕ
  pub mm1 : ℕ
  pub mm2 : ℕ

abbrev pub obstacle_safe_cm : ℕ
obstacle_safe_cm = 50

abbrev pub obstacle_slow_cm : ℕ
obstacle_slow_cm = 30

abbrev pub obstacle_stop_cm : ℕ
obstacle_stop_cm = 10

abbrev pub hysteresis_count : ℕ
hysteresis_count = 2

abbrev pub all_dirs : {A : Type 0} → A → Dirs A
all_dirs a = record { front = a; front_left = a; front_right = a; rear = a }

-- `obstacle_init`.
unfoldable pub obstacle_init : Dirs Zone
obstacle_init = all_dirs (record {
  pending_stop = false;
  pending_slow = false;
  stop_counter = 0;
  slow_counter = 0;
  prev_distance = 0;
})

unfoldable pub map_tof_to_directions : TofReading → Dirs ℕ
map_tof_to_directions t =
    let m1 = if ltb t.mm1 t.mm0 then t.mm1 else t.mm0 in
    record {
      front = if ltb t.mm2 m1 then t.mm2 else m1;
      front_left = t.mm1;
      front_right = t.mm2;
      rear = obstacle_safe_cm + 1;
    }

abbrev pub in_stop_zone : ℕ → Bool
in_stop_zone cm = ltb 0 cm && leb cm obstacle_stop_cm

abbrev pub in_slow_zone : ℕ → Bool
in_slow_zone cm = ltb 0 cm && (ltb obstacle_stop_cm cm && leb cm obstacle_slow_cm)

-- The body of the two hysteresis loops and of the logging loop, for one direction.
unfoldable pub update_zone : Zone → ℕ → Zone
update_zone z cm =
    let stops = (z.stop_counter + 1) % 256 in
    let slows = (z.slow_counter + 1) % 256 in
    record {
      pending_stop =
          if in_stop_zone cm
          then (if leb hysteresis_count stops then true else z.pending_stop)
          else false;
      pending_slow =
          if in_slow_zone cm
          then (if leb hysteresis_count slows then true else z.pending_slow)
          else false;
      stop_counter = if in_stop_zone cm then stops else 0;
      slow_counter = if in_slow_zone cm then slows else 0;
      prev_distance = cm;
    }

abbrev pub any_dir : (Zone → Bool) → Dirs Zone → Bool
any_dir p z = p z.front || (p z.front_left || (p z.front_right || p z.rear))

abbrev pub update_dirs : Dirs Zone → Dirs ℕ → Dirs Zone
update_dirs z d = record {
  front = update_zone z.front d.front;
  front_left = update_zone z.front_left d.front_left;
  front_right = update_zone z.front_right d.front_right;
  rear = update_zone z.rear d.rear;
}

abbrev pub to_cm : Dirs ℕ → Dirs ℕ
to_cm d = record {
  front = d.front / 10;
  front_left = d.front_left / 10;
  front_right = d.front_right / 10;
  rear = d.rear / 10;
}

-- `obstacle_check` at `now`: `none` where `tof_read_all` fails.
unfoldable pub obstacle_check : Dirs Zone → Option TofReading → ℕ → Dirs Zone × ObstacleStatus
obstacle_check z none now = (
  z,
  record {
    distance_cm = all_dirs (obstacle_safe_cm + 1);
    emergency_stop = false;
    slow_down = false;
    timestamp_ms = now;
  },
)
obstacle_check z (some t) now =
    let cm = to_cm (map_tof_to_directions t) in
    let z' = update_dirs z cm in
    (
      z',
      record {
        distance_cm = cm;
        emergency_stop = any_dir (λ y. y.pending_stop) z';
        slow_down = any_dir (λ y. y.pending_slow) z';
        timestamp_ms = now;
      },
    )
