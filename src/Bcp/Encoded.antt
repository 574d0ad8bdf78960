-- ===== src/Bcp/Encoded.antt =====
-- What `bcp_encode` leaves in the buffer: header, commands and checksum.
use companion_robot.Base.{
  ℕ, ◌+◌, ◌-◌, ◌≤◌, ◌<◌, ◌≡◌, sym, ap, ◌∙◌, List, [], ◌∷◌, arith, length, All, ltb_of_le,
}
use companion_robot.Base.Bytes.{
  Memory, store_bytes, load_bytes, store_bytes_below, load_bytes_agree,
}
use companion_robot.Bcp.Types.{Frame, read_u16, write_u16, bcp_version}
use companion_robot.Bcp.Crc.{crc_step, crc_loop, bcp_crc16}
use companion_robot.Bcp.Frame.{bcp_frame_wire_len, header_bytes, encode_commands, bcp_encode}
use companion_robot.Bcp.Wire.{
  IsSendable, wire_size, wire_len_loop_lem, HoldsAll, encode_commands_below,
  encode_commands-HoldsAll,
}

crc_loop-lt : (bs : List ℕ) (crc : ℕ) → crc < 65536 → crc_loop crc bs < 65536
unfolding crc_loop crc_step
crc_loop-lt [] crc h = h
crc_loop-lt (b ∷ bs) crc h = crc_loop-lt bs (crc_step crc b) (omega arith)

pub bcp_crc16-lt : (m : Memory) (n : ℕ) → bcp_crc16 m n < 65536
unfolding bcp_crc16
bcp_crc16-lt m n = crc_loop-lt (load_bytes 0 n m) 0xffff (omega arith)

-- The checksum reads the first `n` bytes only.
pub bcp_crc16_agree :
    (n : ℕ) (m k : Memory) → ((j : ℕ) → j < n → m j ≡ k j) → bcp_crc16 m n ≡ bcp_crc16 k n
unfolding bcp_crc16
bcp_crc16_agree n m k h =
    ap (crc_loop 0xffff) (load_bytes_agree n 0 0 m k (λ j p. ground (arith, h j)))

-- A frame in the range of its C types, in the protocol's version, within its command limit.
pub record IsSendableFrame (f : Frame) : Type 0 where
  pub version_one : f.version ≡ bcp_version
  pub seq_u16 : f.seq_no < 65536
  pub reserved_u8 : f.reserved < 256
  pub few : length f.commands ≤ 32
  pub sendable : All IsSendable f.commands

pub wire_len_lem : (f : Frame) → bcp_frame_wire_len f ≡ 10 + wire_size f.commands
unfolding bcp_frame_wire_len
wire_len_lem f = wire_len_loop_lem f.commands 10

read-write_u16 : (v a : ℕ) (m : Memory) → v < 65536 → read_u16 (store_bytes a (write_u16 v) m) a ≡ v
unfolding store_bytes
read-write_u16 v a m h = ground arith

-- The buffer that `bcp_encode` leaves on success.
pub encoded : Frame → Memory → Memory
encoded f buf =
    let total = bcp_frame_wire_len f in
    let body = encode_commands f.commands 8 (store_bytes 0 (header_bytes f total) buf) in
    store_bytes (total - 2) (write_u16 (bcp_crc16 body (total - 2))) body

pub bcp_encode_success :
    (f : Frame) (buf : Memory) (buf_len : ℕ)
    → bcp_frame_wire_len f ≤ 1024
    → bcp_frame_wire_len f ≤ buf_len
    → bcp_encode f buf buf_len ≡ (bcp_frame_wire_len f, encoded f buf)
unfolding bcp_encode encoded
bcp_encode_success f buf buf_len small room =
    rw (ltb_of_le 1024 (bcp_frame_wire_len f) small, ltb_of_le buf_len (bcp_frame_wire_len f) room)

module _ (f : Frame) (buf : Memory) (v : IsSendableFrame f)
    (small : bcp_frame_wire_len f ≤ 1024) where
  -- Below the commands stand the header bytes.
  pub header_at :
      (j : ℕ)
      → j < 8
      → encoded f buf j ≡ store_bytes 0 (header_bytes f (bcp_frame_wire_len f)) buf j
  unfolding encoded
  header_at j h =
      store_bytes_below _ (bcp_frame_wire_len f - 2) j _ (omega (arith, wire_len_lem f))
      ∙ encode_commands_below f.commands 8 j _ h

  pub commands_at : HoldsAll f.commands 8 (encoded f buf)
  unfolding encoded
  commands_at =
      encode_commands-HoldsAll f.commands 8
        (store_bytes 0 (header_bytes f (bcp_frame_wire_len f)) buf) (encoded f buf) v.sendable
        (λ j lo hi.
          store_bytes_below _ (bcp_frame_wire_len f - 2) j _ (omega (arith, wire_len_lem f)))

  pub crc_at :
      read_u16 (encoded f buf) (bcp_frame_wire_len f - 2)
      ≡ bcp_crc16 (encoded f buf) (bcp_frame_wire_len f - 2)
  unfolding encoded
  crc_at =
      let total = bcp_frame_wire_len f in
      let body = encode_commands f.commands 8 (store_bytes 0 (header_bytes f total) buf) in
      read-write_u16 (bcp_crc16 body (total - 2)) (total - 2) body (bcp_crc16-lt body (total - 2))
      ∙ bcp_crc16_agree (total - 2) body (encoded f buf)
          (λ j h. sym (store_bytes_below _ (total - 2) j body h))
