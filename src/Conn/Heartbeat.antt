-- ===== src/Conn/Heartbeat.antt =====
-- The delta heartbeat of firmware/components/comm/conn_manager.c. `int8_t` is its bit pattern.
use companion_robot.Base.{
  ℕ, ◌+◌, ◌/◌, ◌%◌, Bool, true, false, ◌&&◌, ◌||◌, not, List, [], ◌∷◌, ◌==◌, if◌then◌else◌,
}

-- `hb_type_t`.
pub data HbType : Type 0 where
  no_change battery_only status_change full : HbType

-- The type's value, in bits 7:6 of the header byte.
abbrev pub hb_code : HbType → ℕ
hb_code no_change = 0x00
hb_code battery_only = 0x40
hb_code status_change = 0x80
hb_code full = 0xc0

-- The arguments of `conn_send_heartbeat` but the identifier.
pub record Vitals : Type 0 where
  pub status : ℕ
  pub battery : ℕ
  pub rssi : ℕ
  pub task_id : ℕ

-- `g_hb_cache` and `g_hb_seq`.
pub record HbState : Type 0 where
  pub cache : Vitals
  pub full_countdown : ℕ
  pub seq : ℕ

abbrev pub hb_full_interval : ℕ
hb_full_interval = 10

-- The globals are zero at start-up.
unfoldable pub hb_start : HbState
hb_start = record {
  cache = record { status = 0; battery = 0; rssi = 0; task_id = 0 };
  full_countdown = 0;
  seq = 0;
}

-- `full_countdown--` on a `uint8_t`.
abbrev pub countdown_next : HbState → ℕ
countdown_next h = (h.full_countdown + 255) % 256

unfoldable pub choose_type : HbState → Vitals → HbType
choose_type h v =
    let battery_changed = not (v.battery == h.cache.battery) in
    let status_changed = not (v.status == h.cache.status) in
    let rssi_same = v.rssi == h.cache.rssi in
    let task_same = v.task_id == h.cache.task_id in
    let any_change = battery_changed || (status_changed || (not rssi_same || not task_same)) in
    if countdown_next h == 0
    then full
    else if not any_change
    then no_change
    else if battery_changed && (not status_changed && (rssi_same && task_same))
    then battery_only
    else status_change

unfoldable pub hb_body : HbType → Vitals → List ℕ
hb_body no_change v = []
hb_body battery_only v = v.battery ∷ []
hb_body status_change v = v.status ∷ v.battery ∷ []
hb_body full v = v.status ∷ v.battery ∷ v.rssi ∷ v.task_id % 256 ∷ v.task_id / 256 % 256 ∷ []

unfoldable pub hb_frame : HbType → ℕ → ℕ → Vitals → List ℕ
unfolding hb_body
hb_frame t seq short_id v =
    (hb_code t + seq % 64) ∷ short_id % 256 ∷ short_id / 256 % 256 ∷ hb_body t v

abbrev pub is_full : HbType → Bool
is_full full = true
is_full _ = false

-- `conn_send_heartbeat`: the state after it, and the bytes in `buf[0..len-1]`.
unfoldable pub conn_send_heartbeat : HbState → ℕ → Vitals → HbState × List ℕ
conn_send_heartbeat h short_id v =
    let t = choose_type h v in
    (
      record {
        cache = v;
        full_countdown = if is_full t then hb_full_interval else countdown_next h;
        seq = (h.seq + 1) % 64;
      },
      hb_frame t h.seq short_id v,
    )
