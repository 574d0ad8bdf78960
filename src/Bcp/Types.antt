-- ===== src/Bcp/Types.antt =====
-- The types of firmware/components/bcp/include/bcp_codec.h, and the members of the payload union.
-- The union is its memory. Members stand where the ESP32-S3's compiler puts them: little-endian,
-- naturally aligned, an enum as four bytes. An `int8_t` or `int16_t` is its bit pattern.
use companion_robot.Base.{ℕ, ◌+◌, ◌*◌, ◌/◌, ◌%◌, List, [], ◌∷◌}
use companion_robot.Base.Bytes.{Memory, store}

-- `bcp_error_t`. The functions return it as an `int`, by its position.
abbrev pub err_bad_magic : ℕ
err_bad_magic = 1

abbrev pub err_bad_version : ℕ
err_bad_version = 2

abbrev pub err_incomplete : ℕ
err_incomplete = 3

abbrev pub err_crc_mismatch : ℕ
err_crc_mismatch = 4

abbrev pub err_too_many_commands : ℕ
err_too_many_commands = 7

abbrev pub err_buffer_full : ℕ
err_buffer_full = 8

abbrev pub err_frame_too_large : ℕ
err_frame_too_large = 9

abbrev pub err_bad_frame_len : ℕ
err_bad_frame_len = 10

abbrev pub bcp_magic : ℕ
bcp_magic = 0xcb

abbrev pub bcp_version : ℕ
bcp_version = 1

abbrev pub bcp_header_len : ℕ
bcp_header_len = 8

abbrev pub bcp_crc_len : ℕ
bcp_crc_len = 2

abbrev pub bcp_max_frame_len : ℕ
bcp_max_frame_len = 1024

abbrev pub bcp_min_frame_len : ℕ
bcp_min_frame_len = 10

abbrev pub bcp_max_cmds_per_frame : ℕ
bcp_max_cmds_per_frame = 32

abbrev pub bcp_cmd_header_len : ℕ
bcp_cmd_header_len = 3

-- `bcp_command_t`: `payload` is the union.
pub record Command : Type 0 where
  pub cmd_id : ℕ
  pub payload_len : ℕ
  pub payload : Memory

-- `bcp_frame_t`: `commands` holds the first `cmd_count` entries of the array.
pub record Frame : Type 0 where
  pub version : ℕ
  pub seq_no : ℕ
  pub reserved : ℕ
  pub commands : List Command

-- The bytes that `write_u16` stores from its pointer on.
abbrev pub write_u16 : ℕ → List ℕ
write_u16 v = v % 256 ∷ v / 256 % 256 ∷ []

-- The bytes are disjoint, so the `|` of the source is a sum.
abbrev pub read_u16 : Memory → ℕ → ℕ
read_u16 m a = m a + m (a + 1) * 256

-- Reading a member of the union at offset `a`: one byte, two, or four.
abbrev pub get8 : Memory → ℕ → ℕ
get8 u a = u a

abbrev pub get16 : Memory → ℕ → ℕ
get16 u a = u a + u (a + 1) * 256

abbrev pub get32 : Memory → ℕ → ℕ
get32 u a = u a + u (a + 1) * 256 + u (a + 2) * 65536 + u (a + 3) * 16777216

-- Assigning such a member.
abbrev pub set8 : ℕ → ℕ → Memory → Memory
set8 a v u = store a (v % 256) u

abbrev pub set16 : ℕ → ℕ → Memory → Memory
set16 a v u = store (a + 1) (v / 256 % 256) (store a (v % 256) u)

abbrev pub set32 : ℕ → ℕ → Memory → Memory
set32 a v u =
    store (a + 3) (v / 16777216 % 256)
      (store (a + 2) (v / 65536 % 256) (store (a + 1) (v / 256 % 256) (store a (v % 256) u)))
