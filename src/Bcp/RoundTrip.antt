-- ===== src/Bcp/RoundTrip.antt =====
-- `bcp_decode` reads back the frame that `bcp_encode` wrote.
use companion_robot.Base.{
  ℕ, ◌-◌, ◌/◌, ◌%◌, ◌≤◌, ◌<◌, ◌≡◌, refl, ap, ◌∙◌, List, arith, length, ltb_of_le, ==_refl, ◌==◌,
  if◌then◌else◌,
}
use companion_robot.Base.Bytes.{Memory, store_bytes}
use companion_robot.Bcp.Types.{Command, Frame, read_u16, bcp_version}
use companion_robot.Bcp.Crc.{bcp_crc16}
use companion_robot.Bcp.Frame.{
  bcp_frame_init, bcp_frame_wire_len, header_bytes, decode_commands, bcp_decode,
}
use companion_robot.Bcp.DecodeLoop.{SameAll, decode_commands_lem}
use companion_robot.Bcp.Encoded.{
  IsSendableFrame, wire_len_lem, encoded, header_at, commands_at, crc_at,
}

-- What the guards of `bcp_decode` read in a buffer with a good frame in it.
record IsGood (m : Memory) (total : ℕ) : Type 0 where
  magic : m 0 ≡ 0xcb
  version : m 1 ≡ 1
  len : read_u16 m 2 ≡ total
  big : 10 ≤ total
  small : total ≤ 1024
  crc : read_u16 m (total - 2) ≡ bcp_crc16 m (total - 2)
  few : m 6 ≤ 32

guards_pass :
    (m : Memory) (total n : ℕ) (out : Frame)
    → IsGood m total
    → total ≤ n
    → bcp_decode m n out ≡ (
        let done =
          decode_commands
            (m 6)
            m
            8
            (total - 2)
            (record (bcp_frame_init (read_u16 m 4)) { reserved = m 7 }) in
        (if done.0 == 0 then total else done.0, done.1))
unfolding bcp_decode
guards_pass m total n out g h = rw (
  g.len,
  g.magic,
  g.version,
  g.crc,
  ltb_of_le n 10 (omega arith),
  ltb_of_le total 10 g.big,
  ltb_of_le 1024 total g.small,
  ltb_of_le n total h,
  ==_refl,
  ltb_of_le 32 (m 6) g.few,
)

module _ (f : Frame) (buf : Memory) (v : IsSendableFrame f)
    (small : bcp_frame_wire_len f ≤ 1024) where
  header_byte :
      (j x : ℕ)
      → j < 8
      → store_bytes 0 (header_bytes f (bcp_frame_wire_len f)) buf j ≡ x
      → encoded f buf j ≡ x
  header_byte j x h e = header_at f buf v small j h ∙ e

  count_at : encoded f buf 6 ≡ length f.commands
  count_at = header_byte 6 _ (omega arith) (unfold store_bytes in omega (arith, v.few))

  good : IsGood (encoded f buf) (bcp_frame_wire_len f)
  good = record {
    magic = header_byte 0 _ (omega arith) (unfold store_bytes in refl);
    version = header_byte 1 _ (omega arith) (unfold store_bytes in v.version_one);
    len = omega (
      arith,
      header_byte 2 (bcp_frame_wire_len f % 256) (omega arith) (unfold store_bytes in refl),
      header_byte 3 (bcp_frame_wire_len f / 256 % 256) (omega arith) (unfold store_bytes in refl),
    );
    big = omega (arith, wire_len_lem f);
    small = small;
    crc = crc_at f buf v small;
    few = omega (arith, count_at, v.few);
  }

  started : Frame
  started = record (bcp_frame_init (read_u16 (encoded f buf) 4)) { reserved = encoded f buf 7 }

  started_lem :
      (ds : List Command)
      → record started { commands = ds }
        ≡ record { version = bcp_version; seq_no = f.seq_no; reserved = f.reserved; commands = ds }
  unfolding started bcp_frame_init
  started_lem ds = ground (
    arith,
    header_byte 4 (f.seq_no % 256) (omega arith) (unfold store_bytes in refl),
    header_byte 5 (f.seq_no / 256 % 256) (omega arith) (unfold store_bytes in refl),
    header_byte 7 f.reserved (omega arith) (unfold store_bytes in refl),
    v.seq_u16,
  )

  pub decode_encoded :
      (n : ℕ) (out : Frame)
      → bcp_frame_wire_len f ≤ n
      → (ds : List Command) × SameAll f.commands ds
        × (bcp_decode (encoded f buf) n out ≡ (
          bcp_frame_wire_len f,
          record { version = bcp_version; seq_no = f.seq_no; reserved = f.reserved; commands = ds },
        ))
  decode_encoded n out room =
      let (ds, same, eq) =
        decode_commands_lem f.commands 8 (bcp_frame_wire_len f - 2) (encoded f buf) started
          v.sendable (commands_at f buf v small) (omega (arith, wire_len_lem f))
          (unfold started bcp_frame_init in omega (arith, v.few)) in
      (
        ds,
        same,
        guards_pass (encoded f buf) (bcp_frame_wire_len f) n out good room
            ∙ unfold started bcp_frame_init in
              rw (count_at, eq) (ap (λ (r : Frame). (bcp_frame_wire_len f, r)) (started_lem ds)),
      )
