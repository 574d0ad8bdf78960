-- ===== src/Bcp/Bounds.antt =====
-- Bounds of the codec: what `bcp_encode` writes, and what its result tells.
use companion_robot.Base.{
  ℕ, ◌-◌, ◌≤◌, ◌<◌, ◌≡◌, refl, ◌∙◌, ◌⊎◌, inl, inr, All, arith, ltb, Bool-cases,
}
use companion_robot.Base.Bytes.{Memory, store_bytes_above}
use companion_robot.Bcp.Types.{Frame}
use companion_robot.Bcp.Frame.{bcp_frame_wire_len, bcp_encode}
use companion_robot.Bcp.Wire.{IsSendable, encode_commands_above}
use companion_robot.Bcp.Encoded.{wire_len_lem}

-- The result of `bcp_encode` is one of three: error 9 with the buffer untouched if the frame is
-- longer than 1024 bytes, else error 8 with the buffer untouched if the buffer is too short, else
-- the wire length, which is at least 10.
pub bcp_encode_result :
    (f : Frame) (buf : Memory) (buf_len : ℕ)
    → let r = bcp_encode f buf buf_len in
      let total = bcp_frame_wire_len f in
      ((1024 < total) × (r.0 ≡ 9) × (r.1 ≡ buf))
      ⊎ ((total ≤ 1024) × (buf_len < total) × (r.0 ≡ 8) × (r.1 ≡ buf))
      ⊎ ((total ≤ 1024) × (total ≤ buf_len) × (r.0 ≡ total) × (10 ≤ r.0))
unfolding bcp_encode
bcp_encode_result f buf buf_len = elim (Bool-cases (ltb 1024 (bcp_frame_wire_len f))) [
  | inl big ↦ inl (rw big (ground arith, refl, refl))
  | inr small ↦ inr (elim (Bool-cases (ltb buf_len (bcp_frame_wire_len f))) [
    | inl short ↦ inl (rw (small, short) (ground arith, ground arith, refl, refl))
    | inr room ↦
        inr (rw (small, room) (ground arith, ground arith, refl, omega (arith, wire_len_lem f)))
  ])
]

-- For commands whose raw payload has the announced length, `bcp_encode` leaves every byte from
-- the frame's end on as it was: it writes no byte past its wire length.
pub bcp_encode-no_overrun :
    (f : Frame) (buf : Memory) (buf_len j : ℕ)
    → All IsSendable f.commands
    → bcp_frame_wire_len f ≤ j
    → (bcp_encode f buf buf_len).1 j ≡ buf j
unfolding bcp_encode
bcp_encode-no_overrun f buf buf_len j v past = elim (Bool-cases (ltb 1024 (bcp_frame_wire_len f))) [
  | inl big ↦ rw big
  | inr small ↦ elim (Bool-cases (ltb buf_len (bcp_frame_wire_len f))) [
    | inl short ↦ rw (small, short)
    | inr room ↦
        rw (small, room)
          (store_bytes_above _ (bcp_frame_wire_len f - 2) j _ (omega (arith, wire_len_lem f))
            ∙ encode_commands_above f.commands 8 j _ v (omega (arith, wire_len_lem f))
            ∙ store_bytes_above _ 0 j buf (omega (arith, wire_len_lem f)))
  ]
]
