-- ===== src/Bcp/Wire.antt =====
-- What a run of commands looks like in a buffer, and that `encode_commands` writes it and
-- `decode_commands` reads it.
use companion_robot.Base.{
  ℕ, ◌+◌, ◌/◌, ◌%◌, ◌≤◌, ◌<◌, ◌≡◌, refl, ◌∙◌, List, [], ◌∷◌, ◌++◌, arith, length, All, subst,
}
use companion_robot.Base.Bytes.{
  Memory, store_bytes, load_bytes, load-store_bytes, store_bytes_below, store_bytes_above,
  load_bytes_agree,
}
use companion_robot.Bcp.Ids.{kind_of}
use companion_robot.Bcp.Types.{Command, write_u16, bcp_cmd_header_len}
use companion_robot.Bcp.Payload.{cmd_payload_len, encode_cmd_payload}
use companion_robot.Bcp.Frame.{wire_len_loop, encode_commands}
use companion_robot.Bcp.Members.{EnumsFit, AreBytes}

-- A command that the sender may build: values in the range of their C types, enum members that
-- fit the byte that the wire has for them, and raw bytes as many as the label announces.
pub record IsSendable (c : Command) : Type 0 where
  pub id_u16 : c.cmd_id < 65536
  pub len_u8 : cmd_payload_len c < 256
  pub bytes : AreBytes c.payload
  pub enums : EnumsFit (kind_of c.cmd_id) c.payload
  pub fills : length (encode_cmd_payload c) ≡ cmd_payload_len c

-- The bytes that the commands take in a frame.
unfoldable pub wire_size : List Command → ℕ
wire_size [] = 0
wire_size (c ∷ cs) = bcp_cmd_header_len + cmd_payload_len c + wire_size cs

pub wire_len_loop_lem :
    (cs : List Command) (total : ℕ) → wire_len_loop total cs ≡ total + wire_size cs
unfolding wire_len_loop wire_size
wire_len_loop_lem [] total = omega arith
wire_len_loop_lem (c ∷ cs) total =
    omega (arith, wire_len_loop_lem cs (total + (bcp_cmd_header_len + cmd_payload_len c)))

pub record HoldsCommand (c : Command) (pos : ℕ) (m : Memory) : Type 0 where
  pub id_low : m pos ≡ c.cmd_id % 256
  pub id_high : m (pos + 1) ≡ c.cmd_id / 256 % 256
  pub len : m (pos + 2) ≡ cmd_payload_len c
  pub body : load_bytes (pos + 3) (cmd_payload_len c) m ≡ encode_cmd_payload c

unfoldable pub HoldsAll : List Command → ℕ → Memory → Type 0
HoldsAll [] pos m = Unit
HoldsAll (c ∷ cs) pos m = HoldsCommand c pos m × HoldsAll cs (pos + 3 + cmd_payload_len c) m

-- Nothing below `pos` is written.
pub encode_commands_below :
    (cs : List Command) (pos j : ℕ) (buf : Memory) → j < pos → encode_commands cs pos buf j ≡ buf j
unfolding encode_commands
encode_commands_below [] pos j buf h = refl
encode_commands_below (c ∷ cs) pos j buf h =
    let headed = store_bytes pos (write_u16 c.cmd_id ++ (cmd_payload_len c % 256 ∷ [])) buf in
    let filled = store_bytes (pos + 3) (encode_cmd_payload c) headed in
    encode_commands_below cs (pos + 3 + cmd_payload_len c) j filled (omega arith)
    ∙ store_bytes_below (encode_cmd_payload c) (pos + 3) j headed (omega arith)
    ∙ store_bytes_below _ pos j buf h

-- Nothing from the end of the commands on is written.
pub encode_commands_above :
    (cs : List Command) (pos j : ℕ) (buf : Memory)
    → All IsSendable cs
    → pos + wire_size cs ≤ j
    → encode_commands cs pos buf j ≡ buf j
unfolding encode_commands wire_size
encode_commands_above [] pos j buf v h = refl
encode_commands_above (c ∷ cs) pos j buf (v, vs) h =
    let headed = store_bytes pos (write_u16 c.cmd_id ++ (cmd_payload_len c % 256 ∷ [])) buf in
    let filled = store_bytes (pos + 3) (encode_cmd_payload c) headed in
    encode_commands_above cs (pos + 3 + cmd_payload_len c) j filled vs (omega arith)
    ∙ store_bytes_above (encode_cmd_payload c) (pos + 3) j headed (omega (arith, v.fills))
    ∙ store_bytes_above _ pos j buf (omega arith)

-- The header bytes of a command and its payload, once stored.
store_command :
    (c : Command) (pos : ℕ) (buf : Memory)
    → IsSendable c
    → HoldsCommand c pos (
        store_bytes
          (pos + 3)
          (encode_cmd_payload c)
          (store_bytes pos (write_u16 c.cmd_id ++ (cmd_payload_len c % 256 ∷ [])) buf))
store_command c pos buf v =
    let headed = store_bytes pos (write_u16 c.cmd_id ++ (cmd_payload_len c % 256 ∷ [])) buf in
    let bs = encode_cmd_payload c in
    record {
      id_low =
          store_bytes_below bs (pos + 3) pos headed (omega arith)
          ∙ unfold store_bytes in ground arith;
      id_high =
          store_bytes_below bs (pos + 3) (pos + 1) headed (omega arith)
          ∙ unfold store_bytes in ground arith;
      len =
          store_bytes_below bs (pos + 3) (pos + 2) headed (omega arith)
          ∙ unfold store_bytes in ground (arith, v.len_u8);
      body =
          subst (λ n. load_bytes (pos + 3) n (store_bytes (pos + 3) bs headed) ≡ bs) v.fills
            (load-store_bytes bs (pos + 3) headed);
    }

-- A buffer that agrees with another on the command's bytes holds the same command.
HoldsCommand-agree :
    (c : Command) (pos : ℕ) (m k : Memory)
    → HoldsCommand c pos m
    → ((j : ℕ) → pos ≤ j → j < pos + 3 + cmd_payload_len c → k j ≡ m j)
    → HoldsCommand c pos k
HoldsCommand-agree c pos m k h eq = record {
  id_low = eq pos (omega arith) (omega arith) ∙ h.id_low;
  id_high = eq (pos + 1) (omega arith) (omega arith) ∙ h.id_high;
  len = eq (pos + 2) (omega arith) (omega arith) ∙ h.len;
  body =
      load_bytes_agree (cmd_payload_len c) (pos + 3) (pos + 3) k m
        (λ j p. eq (pos + 3 + j) (omega arith) (omega arith))
      ∙ h.body;
}

-- After `encode_commands` the buffer holds the commands, and so does every buffer that agrees
-- with it there.
pub encode_commands-HoldsAll :
    (cs : List Command) (pos : ℕ) (buf m : Memory)
    → All IsSendable cs
    → ((j : ℕ) → pos ≤ j → j < pos + wire_size cs → m j ≡ encode_commands cs pos buf j)
    → HoldsAll cs pos m
unfolding encode_commands wire_size HoldsAll
encode_commands-HoldsAll [] pos buf m v eq = tt
encode_commands-HoldsAll (c ∷ cs) pos buf m (v, vs) eq =
    let headed = store_bytes pos (write_u16 c.cmd_id ++ (cmd_payload_len c % 256 ∷ [])) buf in
    let filled = store_bytes (pos + 3) (encode_cmd_payload c) headed in
    let end = pos + 3 + cmd_payload_len c in
    (
      HoldsCommand-agree c pos filled m (store_command c pos buf v)
          (λ j lo hi. eq j lo (omega arith) ∙ encode_commands_below cs end j filled hi),
      encode_commands-HoldsAll cs end filled m vs (λ j lo hi. eq j (omega arith) (omega arith)),
    )
