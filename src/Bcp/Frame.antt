-- ===== src/Bcp/Frame.antt =====
-- Frames: `bcp_frame_init`, `bcp_frame_push`, `bcp_frame_wire_len`, `bcp_encode`, `bcp_decode`.
use companion_robot.Base.{
  ℕ, zero, suc, ◌+◌, ◌-◌, ◌/◌, ◌%◌, List, [], ◌∷◌, ◌++◌, ◌||◌, not, length, if◌then◌else◌, ltb, leb,
  ◌==◌,
}
use companion_robot.Base.Bytes.{Memory, at, store_bytes}
use companion_robot.Bcp.Types.{
  Command, Frame, write_u16, read_u16, err_bad_magic, err_bad_version, err_incomplete,
  err_crc_mismatch, err_too_many_commands, err_buffer_full, err_frame_too_large, err_bad_frame_len,
  bcp_magic, bcp_version, bcp_header_len, bcp_crc_len, bcp_max_frame_len, bcp_min_frame_len,
  bcp_max_cmds_per_frame, bcp_cmd_header_len,
}
use companion_robot.Bcp.Crc.{bcp_crc16}
use companion_robot.Bcp.Payload.{cmd_payload_len, encode_cmd_payload, decode_cmd_payload}

unfoldable pub bcp_frame_init : ℕ → Frame
bcp_frame_init seq_no = record {
  version = bcp_version;
  seq_no = seq_no;
  reserved = 0;
  commands = [];
}

-- The new frame, and the `int` returned.
unfoldable pub bcp_frame_push : Frame → Command → Frame × ℕ
bcp_frame_push f cmd =
    if leb bcp_max_cmds_per_frame (length f.commands)
    then (f, err_too_many_commands)
    else (record f { commands = f.commands ++ (cmd ∷ []) }, 0)

unfoldable pub wire_len_loop : ℕ → List Command → ℕ
wire_len_loop total [] = total
wire_len_loop total (c ∷ cs) = wire_len_loop (total + (bcp_cmd_header_len + cmd_payload_len c)) cs

unfoldable pub bcp_frame_wire_len : Frame → ℕ
unfolding wire_len_loop
bcp_frame_wire_len f = wire_len_loop (bcp_header_len + bcp_crc_len) f.commands

-- The loop over the commands, writing to the buffer from `pos` on.
unfoldable pub encode_commands : List Command → ℕ → Memory → Memory
encode_commands [] pos buf = buf
encode_commands (c ∷ cs) pos buf =
    let plen = cmd_payload_len c in
    let headed = store_bytes pos (write_u16 c.cmd_id ++ (plen % 256 ∷ [])) buf in
    let filled = store_bytes (pos + bcp_cmd_header_len) (encode_cmd_payload c) headed in
    encode_commands cs (pos + bcp_cmd_header_len + plen) filled

abbrev pub header_bytes : Frame → ℕ → List ℕ
header_bytes f total =
    bcp_magic
    ∷ f.version
    ∷ total % 256
    ∷ total / 256 % 256
    ∷ f.seq_no % 256
    ∷ f.seq_no / 256 % 256
    ∷ length f.commands % 256
    ∷ f.reserved
    ∷ []

-- The `int` returned, and the buffer after the call.
unfoldable pub bcp_encode : Frame → Memory → ℕ → ℕ × Memory
unfolding encode_commands
bcp_encode f buf buf_len =
    let total = bcp_frame_wire_len f in
    let body =
      encode_commands f.commands bcp_header_len (store_bytes 0 (header_bytes f total) buf) in
    let crc = bcp_crc16 body (total - bcp_crc_len) in
    if ltb bcp_max_frame_len total
    then (err_frame_too_large, buf)
    else if ltb buf_len total
    then (err_buffer_full, buf)
    else (total, store_bytes (total - 2) (write_u16 crc) body)

-- The loop over the commands, `n` rounds left: the frame so far, and 0 or the error returned.
unfoldable pub decode_commands : ℕ → Memory → ℕ → ℕ → Frame → ℕ × Frame
unfolding bcp_frame_push
decode_commands zero buf pos cmd_end out = (0, out)
decode_commands (suc n) buf pos cmd_end out =
    let payload_len = buf (pos + 2) in
    let start = pos + bcp_cmd_header_len in
    let cmd = decode_cmd_payload (read_u16 buf pos) (at buf start) payload_len in
    let pushed = bcp_frame_push out cmd in
    let rest = decode_commands n buf (start + payload_len) cmd_end pushed.0 in
    if ltb cmd_end start
    then (err_incomplete, out)
    else if ltb cmd_end (start + payload_len)
    then (err_incomplete, out)
    else if pushed.1 == 0
    then rest
    else (pushed.1, out)

-- The `int` returned, and `*out_frame` after the call.
unfoldable pub bcp_decode : Memory → ℕ → Frame → ℕ × Frame
unfolding decode_commands bcp_frame_init
bcp_decode buf buf_len out =
    let total_len = read_u16 buf 2 in
    let expected = read_u16 buf (total_len - 2) in
    let started = record (bcp_frame_init (read_u16 buf 4)) { reserved = buf 7 } in
    let done = decode_commands (buf 6) buf bcp_header_len (total_len - bcp_crc_len) started in
    if ltb buf_len bcp_min_frame_len
    then (err_incomplete, out)
    else if not (buf 0 == bcp_magic)
    then (err_bad_magic, out)
    else if not (buf 1 == bcp_version)
    then (err_bad_version, out)
    else if ltb total_len bcp_min_frame_len || ltb bcp_max_frame_len total_len
    then (err_bad_frame_len, out)
    else if ltb buf_len total_len
    then (err_incomplete, out)
    else if not (expected == bcp_crc16 buf (total_len - bcp_crc_len))
    then (err_crc_mismatch, out)
    else if ltb bcp_max_cmds_per_frame (buf 6)
    then (err_too_many_commands, out)
    else (if done.0 == 0 then total_len else done.0, done.1)
