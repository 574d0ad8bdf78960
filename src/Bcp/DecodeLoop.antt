-- ===== src/Bcp/DecodeLoop.antt =====
-- The loop of `bcp_decode` reads the commands that a buffer holds.
use companion_robot.Base.{
  ℕ, suc, ◌+◌, ◌%◌, ◌≤◌, ◌<◌, ◌≡◌, refl, sym, ap, ◌∙◌, List, [], ◌∷◌, ◌++◌, arith, length,
  length-append, All, ltb_of_le,
}
use companion_robot.Base.Bytes.{Memory, at, load_bytes, load_bytes_agree}
use companion_robot.Bcp.Ids.{kind_of}
use companion_robot.Bcp.Types.{Command, Frame, read_u16}
use companion_robot.Bcp.Payload.{
  payload_bytes, cmd_payload_len, encode_cmd_payload, decode_cmd_payload,
}
use companion_robot.Bcp.Frame.{bcp_frame_push, decode_commands}
use companion_robot.Bcp.Members.{SameCommand}
use companion_robot.Bcp.PayloadRoundTrip.{payload_members}
use companion_robot.Bcp.Wire.{IsSendable, wire_size, HoldsCommand, HoldsAll}
use mathlib.Core.List.{append-nil, append_assoc}

-- The same commands in the same order.
unfoldable pub SameAll : List Command → List Command → Type 0
SameAll [] [] = Unit
SameAll (c ∷ cs) (d ∷ ds) = SameCommand c d × SameAll cs ds
SameAll _ _ = ⊥

-- The command that `decode_commands` reads where `c` was stored.
abbrev read_back : Command → ℕ → Memory → Command
read_back c pos m = decode_cmd_payload (read_u16 m pos) (at m (pos + 3)) (m (pos + 2))

id_read :
    (c : Command) (pos : ℕ) (m : Memory)
    → IsSendable c
    → HoldsCommand c pos m
    → read_u16 m pos ≡ c.cmd_id
id_read c pos m v h = omega (arith, h.id_low, h.id_high, v.id_u16)

read_back_same :
    (c : Command) (pos : ℕ) (m : Memory)
    → IsSendable c
    → HoldsCommand c pos m
    → SameCommand c (read_back c pos m)
unfolding decode_cmd_payload encode_cmd_payload
read_back_same c pos m v h =
    rw (id_read c pos m v h, h.len)
      (record {
        same_id = refl;
        same_members = sym (
            rw (mod_len, ← v.fills)
              (payload_members (kind_of c.cmd_id) c.payload_len c.payload (at m (pos + 3)) v.bytes
                v.enums held));
      })
  where
    mod_len : cmd_payload_len c % 256 ≡ cmd_payload_len c
    mod_len = omega (arith, v.len_u8)

    held :
        load_bytes 0
          (length (payload_bytes (kind_of c.cmd_id) c.payload_len c.payload))
          (at m (pos + 3))
        ≡ payload_bytes (kind_of c.cmd_id) c.payload_len c.payload
    held = rw v.fills (load_bytes_agree _ 0 (pos + 3) _ m (λ j p. ap m (omega arith)) ∙ h.body)

push_lem :
    (f : Frame) (c : Command)
    → length f.commands < 32
    → bcp_frame_push f c ≡ (record f { commands = f.commands ++ (c ∷ []) }, 0)
unfolding bcp_frame_push
push_lem f c h = ground arith

-- One round of the loop on a stored command.
decode_step :
    (n : ℕ) (c : Command) (pos cmd_end : ℕ) (m : Memory) (out : Frame)
    → HoldsCommand c pos m
    → pos + 3 + cmd_payload_len c ≤ cmd_end
    → length out.commands < 32
    → decode_commands (suc n) m pos cmd_end out
      ≡ decode_commands n m
          (pos + 3 + cmd_payload_len c)
          cmd_end
          (record out { commands = out.commands ++ (read_back c pos m ∷ []) })
unfolding decode_commands
decode_step n c pos cmd_end m out h fits room = rw (
  push_lem out (read_back c pos m) room,
  h.len,
  ltb_of_le cmd_end (pos + 3) (omega arith),
  ltb_of_le cmd_end (pos + 3 + cmd_payload_len c) fits,
)

pub decode_commands_lem :
    (cs : List Command) (pos cmd_end : ℕ) (m : Memory) (out : Frame)
    → All IsSendable cs
    → HoldsAll cs pos m
    → pos + wire_size cs ≤ cmd_end
    → length out.commands + length cs ≤ 32
    → (ds : List Command) × SameAll cs ds
      × (decode_commands (length cs) m pos cmd_end out
          ≡ (0, record out { commands = out.commands ++ ds }))
unfolding wire_size HoldsAll SameAll
decode_commands_lem [] pos cmd_end m out v h fits room =
    ([], tt, rw append-nil (unfold decode_commands in refl))
decode_commands_lem (c ∷ cs) pos cmd_end m out (v, vs) (h, hs) fits room =
    let d = read_back c pos m in
    let next = record out { commands = out.commands ++ (d ∷ []) } in
    let (ds, same, eq) =
      decode_commands_lem cs (pos + 3 + cmd_payload_len c) cmd_end m next vs hs (omega arith)
        (omega (arith, length-append out.commands (d ∷ []))) in
    (
      d ∷ ds,
      (read_back_same c pos m v h, same),
      decode_step (length cs) c pos cmd_end m out h (omega arith) (omega arith)
          ∙ eq
          ∙ ap (λ l. (0, record out { commands = l })) (append_assoc out.commands (d ∷ []) ds),
    )
