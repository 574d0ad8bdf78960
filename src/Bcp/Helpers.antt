-- ===== src/Bcp/Helpers.antt =====
-- The message helpers at the end of firmware/components/bcp/bcp_codec.c, and the differ of
-- heartbeats.
use companion_robot.Base.{ℕ, ◌%◌, ◌/◌, Bool, true, false, ◌&&◌, List, [], ◌∷◌, ◌==◌, if◌then◌else◌}
use companion_robot.Base.Bytes.{store_bytes}
use companion_robot.Bcp.Types.{Command, set8, set16, set32}

-- The values of a heartbeat; the signal strength is the byte of an `int8_t`.
pub record Beat : Type 0 where
  pub status : ℕ
  pub battery : ℕ
  pub rssi : ℕ
  pub task_id : ℕ

-- `heartbeat_delta_type_t`.
pub data DeltaType : Type 0 where
  heartbeat_full heartbeat_no_change heartbeat_battery_only : DeltaType

-- `heartbeat_delta_t`.
pub record Delta : Type 0 where
  pub delta_type : DeltaType
  pub values : Beat

-- `heartbeat_differ_t`.
pub record Differ : Type 0 where
  pub has_last : Bool
  pub last : Beat

unfoldable pub heartbeat_differ_init : Differ
heartbeat_differ_init = record {
  has_last = false;
  last = record { status = 0; battery = 0; rssi = 0; task_id = 0 };
}

-- The type that `heartbeat_differ_diff` chooses.
unfoldable pub delta_type_of : Differ → Beat → DeltaType
delta_type_of d b =
    let l = d.last in
    if d.has_last
    then (if l.status == b.status && (l.rssi == b.rssi && l.task_id == b.task_id)
        then (if l.battery == b.battery then heartbeat_no_change else heartbeat_battery_only)
        else heartbeat_full)
    else heartbeat_full

-- What is written to `*out`, field by field: the others keep their value.
unfoldable pub fill_delta : DeltaType → Beat → Delta → Delta
fill_delta heartbeat_full b out = record { delta_type = heartbeat_full; values = b }
fill_delta heartbeat_no_change b out = record out { delta_type = heartbeat_no_change }
fill_delta heartbeat_battery_only b out = record {
  delta_type = heartbeat_battery_only;
  values = record out.values { battery = b.battery };
}

-- `heartbeat_differ_diff`: the differ and `*out` after it.
unfoldable pub heartbeat_differ_diff : Differ → Delta → Beat → Differ × Delta
heartbeat_differ_diff d out b =
    (record { has_last = true; last = b }, fill_delta (delta_type_of d b) b out)

-- The payload that `bcp_encode_heartbeat_delta` writes.
unfoldable pub delta_bytes : DeltaType → Beat → List ℕ
delta_bytes heartbeat_no_change b = 1 ∷ []
delta_bytes heartbeat_battery_only b = 2 ∷ b.battery ∷ []
delta_bytes heartbeat_full b =
    0 ∷ b.status ∷ b.battery ∷ b.rssi ∷ b.task_id % 256 ∷ b.task_id / 256 % 256 ∷ []

unfoldable pub delta_len : DeltaType → ℕ
delta_len heartbeat_no_change = 1
delta_len heartbeat_battery_only = 2
delta_len heartbeat_full = 6

unfoldable pub bcp_encode_heartbeat_delta : Command → Delta → Command
bcp_encode_heartbeat_delta cmd d = record {
  cmd_id = 0x0001;
  payload_len = delta_len d.delta_type;
  payload = store_bytes 0 (delta_bytes d.delta_type d.values) cmd.payload;
}

unfoldable pub bcp_encode_heartbeat : Command → Beat → Command
bcp_encode_heartbeat cmd b = record {
  cmd_id = 0x0001;
  payload_len = 5;
  payload = set16 4 b.task_id (set8 2 b.rssi (set8 1 b.battery (set8 0 b.status cmd.payload)));
}

-- The six axes are 16-bit words.
unfoldable pub bcp_encode_imu : Command → (ax ay az gx gy gz : ℕ) → Command
bcp_encode_imu cmd ax ay az gx gy gz = record {
  cmd_id = 0x0308;
  payload_len = 12;
  payload =
      set16 10 gz (set16 8 gy (set16 6 gx (set16 4 az (set16 2 ay (set16 0 ax cmd.payload)))));
}

unfoldable pub bcp_encode_obstacle : Command → (direction distance : ℕ) → Command
bcp_encode_obstacle cmd direction distance = record {
  cmd_id = 0x0309;
  payload_len = 3;
  payload = set16 2 distance (set8 0 direction cmd.payload);
}

unfoldable pub bcp_encode_env : Command → (temp humi pressure light air : ℕ) → Command
bcp_encode_env cmd temp humi pressure light air = record {
  cmd_id = 0x0301;
  payload_len = 14;
  payload =
      set16 12 air (set32 8 light (set32 4 pressure (set16 2 humi (set16 0 temp cmd.payload))));
}
