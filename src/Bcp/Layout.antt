-- ===== src/Bcp/Layout.antt =====
-- The payload structures of firmware/components/bcp/include/bcp_codec.h, as lists of their fields,
-- and an encoding that follows from these lists alone.
use companion_robot.Base.{ℕ, ◌+◌, ◌-◌, ◌*◌, ◌/◌, ◌%◌, List, [], ◌∷◌, ◌++◌}
use companion_robot.Base.Bytes.{Memory, store_bytes, load_bytes}
use companion_robot.Bcp.Ids.{Kind}
use companion_robot.Bcp.Types.{write_u16, read_u16, get8, get16, get32, set8, set16, set32}
use companion_robot.Bcp.Payload.{write_u32, read_u32}

-- The types of the fields; an enumeration is an `int` in memory.
pub data Field : Type 0 where
  u8 u16 u32 enumeration : Field
  u8_array : (n : ℕ) → Field

abbrev pub size_of : Field → ℕ
size_of u8 = 1
size_of u16 = 2
size_of u32 = 4
size_of enumeration = 4
size_of (u8_array n) = n

abbrev pub align_of : Field → ℕ
align_of u8 = 1
align_of u16 = 2
align_of u32 = 4
align_of enumeration = 4
align_of (u8_array n) = 1

-- On the wire an enumeration takes one byte.
abbrev pub wire_size_of : Field → ℕ
wire_size_of u8 = 1
wire_size_of u16 = 2
wire_size_of u32 = 4
wire_size_of enumeration = 1
wire_size_of (u8_array n) = n

-- The first offset from `a` on that a field may stand at.
abbrev pub aligned : ℕ → Field → ℕ
aligned a f = (a + align_of f - 1) / align_of f * align_of f

unfoldable pub wire_size : List Field → ℕ
wire_size [] = 0
wire_size (f ∷ fs) = wire_size_of f + wire_size fs

abbrev pub field_bytes : Field → ℕ → Memory → List ℕ
field_bytes u8 a u = get8 u a ∷ []
field_bytes u16 a u = write_u16 (get16 u a)
field_bytes u32 a u = write_u32 (get32 u a)
field_bytes enumeration a u = get32 u a % 256 ∷ []
field_bytes (u8_array n) a u = load_bytes a n u

-- The wire bytes of the fields, which stand in memory from `a` on.
unfoldable pub serialize : List Field → (a : ℕ) → Memory → List ℕ
serialize [] a u = []
serialize (f ∷ fs) a u = field_bytes f (aligned a f) u ++ serialize fs (aligned a f + size_of f) u

abbrev pub read_field : Field → (a w : ℕ) → (wire : Memory) → Memory → Memory
read_field u8 a w wire u = set8 a (wire w) u
read_field u16 a w wire u = set16 a (read_u16 wire w) u
read_field u32 a w wire u = set32 a (read_u32 wire w) u
read_field enumeration a w wire u = set32 a (wire w) u
read_field (u8_array n) a w wire u = store_bytes a (load_bytes w n wire) u

-- The fields in memory from `a` on, read from the wire bytes from `w` on.
unfoldable pub deserialize : List Field → (a w : ℕ) → (wire : Memory) → Memory → Memory
deserialize [] a w wire u = u
deserialize (f ∷ fs) a w wire u =
    deserialize fs (aligned a f + size_of f) (w + wire_size_of f) wire
      (read_field f (aligned a f) w wire u)

-- "Command payload structs", with the commands that have them.
pub data Struct : Kind → List Field → Type 0 where
  bcp_heartbeat_t : Struct Kind.heartbeat (u8 ∷ u8 ∷ u8 ∷ u16 ∷ [])
  bcp_register_t : Struct Kind.register (u16 ∷ u8_array 4 ∷ [])
  bcp_reg_ack_t : Struct Kind.reg_ack (u16 ∷ u16 ∷ [])
  bcp_move_t : Struct Kind.move (enumeration ∷ u8 ∷ [])
  bcp_move_to_t : Struct Kind.move_to (u16 ∷ u16 ∷ u8 ∷ [])
  bcp_stop_t : Struct Kind.stop (u8 ∷ [])
  bcp_servo_set_t : Struct Kind.servo_set (u8 ∷ u16 ∷ [])
  bcp_head_pan_tilt_t : Struct Kind.head_pan_tilt (u8 ∷ u8 ∷ [])
  bcp_led_set_t : Struct Kind.led_set (u16 ∷ u8 ∷ u8 ∷ u8 ∷ [])
  bcp_led_pattern_t : Struct Kind.led_pattern (enumeration ∷ u8 ∷ u8 ∷ u8 ∷ u8 ∷ [])
  bcp_face_expr_cmd_t : Struct Kind.face_expr (enumeration ∷ [])
  bcp_env_data_t : Struct Kind.env_data (u16 ∷ u16 ∷ u32 ∷ u32 ∷ u16 ∷ [])
  bcp_motion_event_t : Struct Kind.motion_event (u8 ∷ u8 ∷ [])
  bcp_audio_event_t : Struct Kind.audio_event (u8 ∷ u16 ∷ [])
  bcp_touch_event_t : Struct Kind.touch_event (u8 ∷ u8 ∷ u8 ∷ [])
  bcp_imu_data_t : Struct Kind.imu_data (u16 ∷ u16 ∷ u16 ∷ u16 ∷ u16 ∷ u16 ∷ [])
  bcp_obstacle_t : Struct Kind.obstacle (u8 ∷ u16 ∷ [])
  bcp_task_status_t : Struct Kind.task_status (u16 ∷ u8 ∷ u8 ∷ [])
