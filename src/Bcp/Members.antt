-- ===== src/Bcp/Members.antt =====
-- The payload structs of firmware/components/bcp/include/bcp_codec.h as lists of member values.
use companion_robot.Base.{ℕ, ◌<◌, ◌≡◌, List, [], ◌∷◌}
use companion_robot.Base.Bytes.{Memory, load_bytes}
use companion_robot.Bcp.Ids.{Kind, kind_of}
use companion_robot.Bcp.Types.{Command, get8, get16, get32}

-- The members of the struct that a label reads, in declaration order; no struct, no members.
-- A label that copies raw bytes has the first `n` bytes of the union.
unfoldable pub members : Kind → ℕ → Memory → List ℕ
members Kind.heartbeat n u = get8 u 0 ∷ get8 u 1 ∷ get8 u 2 ∷ get16 u 4 ∷ []
members Kind.register n u = get16 u 0 ∷ load_bytes 2 4 u
members Kind.reg_ack n u = get16 u 0 ∷ get16 u 2 ∷ []
members Kind.ping n u = []
members Kind.pong n u = []
members Kind.reset n u = []
members Kind.move n u = get32 u 0 ∷ get8 u 4 ∷ []
members Kind.move_to n u = get16 u 0 ∷ get16 u 2 ∷ get8 u 4 ∷ []
members Kind.stop n u = get8 u 0 ∷ []
members Kind.servo_set n u = get8 u 0 ∷ get16 u 2 ∷ []
members Kind.head_pan_tilt n u = get8 u 0 ∷ get8 u 1 ∷ []
members Kind.led_set n u = get16 u 0 ∷ get8 u 2 ∷ get8 u 3 ∷ get8 u 4 ∷ []
members Kind.led_pattern n u = get32 u 0 ∷ get8 u 4 ∷ get8 u 5 ∷ get8 u 6 ∷ get8 u 7 ∷ []
members Kind.led_off n u = []
members Kind.face_expr n u = get32 u 0 ∷ []
members Kind.env_data n u = get16 u 0 ∷ get16 u 2 ∷ get32 u 4 ∷ get32 u 8 ∷ get16 u 12 ∷ []
members Kind.motion_event n u = get8 u 0 ∷ get8 u 1 ∷ []
members Kind.audio_event n u = get8 u 0 ∷ get16 u 2 ∷ []
members Kind.touch_event n u = get8 u 0 ∷ get8 u 1 ∷ get8 u 2 ∷ []
members Kind.imu_data n u =
    get16 u 0 ∷ get16 u 2 ∷ get16 u 4 ∷ get16 u 6 ∷ get16 u 8 ∷ get16 u 10 ∷ []
members Kind.obstacle n u = get8 u 0 ∷ get16 u 2 ∷ []
members Kind.task_status n u = get16 u 0 ∷ get8 u 2 ∷ get8 u 3 ∷ []
members Kind.task_cancel n u = []
members _ n u = load_bytes 0 n u

-- The wire has one byte for each enum member.
unfoldable pub EnumsFit : Kind → Memory → Type 0
EnumsFit Kind.move u = get32 u 0 < 256
EnumsFit Kind.led_pattern u = get32 u 0 < 256
EnumsFit Kind.face_expr u = get32 u 0 < 256
EnumsFit _ u = Unit

abbrev pub AreBytes : Memory → Type 0
AreBytes u = (j : ℕ) → u j < 256

-- Same identifier, and every member of the payload the same.
pub record SameCommand (c d : Command) : Type 0 where
  pub same_id : c.cmd_id ≡ d.cmd_id
  pub same_members :
      members (kind_of c.cmd_id) c.payload_len c.payload
      ≡ members (kind_of d.cmd_id) d.payload_len d.payload
