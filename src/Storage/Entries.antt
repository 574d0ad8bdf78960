-- ===== src/Storage/Entries.antt =====
-- An appended entry reads back: firmware/components/storage/log_buf.c.
use companion_robot.Base.{
  ℕ, zero, suc, ◌+◌, ◌-◌, ◌%◌, ◌/◌, ◌*◌, ◌<◌, ◌≤◌, ◌≡◌, refl, ap, ◌∙◌, false, some, leb, ◌==◌, List,
  [], ◌∷◌, ◌++◌, length, arith, ltb_of_le, add32,
}
use companion_robot.Base.Bytes.{
  Memory, store, store_bytes, load_bytes, store_bytes_below, load-store_bytes, load_bytes_agree,
}
use companion_robot.Bcp.Types.{write_u16}
use companion_robot.Bcp.Payload.{write_u32, read_u32}
use companion_robot.Diag.LogRing.{first_chars}
use companion_robot.Storage.LogBuf.{
  LogBuf, entry_size, encode_entry, decode_entry, append_pos, log_buf_append,
}

pub first_chars_le : (n : ℕ) (cs : List ℕ) → length (first_chars n cs) ≤ n
unfolding first_chars
first_chars_le n [] = omega arith
first_chars_le zero (c ∷ cs) = omega arith
first_chars_le (suc n) (c ∷ cs) = omega (arith, first_chars_le n cs)

-- What stands in memory from `pos` on.
pub record HoldsEntry (m : Memory) (pos level now : ℕ) (t s : List ℕ) : Type 0 where
  pub stamped : read_u32 m pos ≡ now
  pub leveled : m (pos + 4) ≡ level % 256
  pub tag_length : m (pos + 5) ≡ length t
  pub tag_there : load_bytes (pos + 6) (length t) m ≡ t
  pub msg_length : m (pos + 6 + length t) + m (pos + 6 + length t + 1) * 256 ≡ length s
  pub msg_there : load_bytes (pos + 6 + length t + 2) (length s) m ≡ s

-- The memory after the four stores of `encode_entry`.
abbrev pub written : Memory → (pos level now : ℕ) (t s : List ℕ) → Memory
written m pos level now t s =
    let head = store_bytes pos (write_u32 now ++ (level % 256 ∷ length t % 256 ∷ [])) m in
    let tagged = store_bytes (pos + 6) t head in
    let sized = store_bytes (pos + 6 + length t) (write_u16 (length s)) tagged in
    store_bytes (pos + 8 + length t) s sized

written_head :
    (m : Memory) (pos level now : ℕ) (t s : List ℕ) (j : ℕ)
    → j < pos + 6
    → written m pos level now t s j
      ≡ store_bytes pos (write_u32 now ++ (level % 256 ∷ length t % 256 ∷ [])) m j
written_head m pos level now t s j h =
    store_bytes_below s (pos + 8 + length t) j _ (omega arith)
    ∙ store_bytes_below (write_u16 (length s)) (pos + 6 + length t) j _ (omega arith)
    ∙ store_bytes_below t (pos + 6) j _ (omega arith)

six_bytes :
    (a b c d e f pos : ℕ) (m : Memory)
    → let k = store_bytes pos (a ∷ b ∷ c ∷ d ∷ e ∷ f ∷ []) m in
      (k pos ≡ a)
      × (k (pos + 1) ≡ b)
      × (k (pos + 2) ≡ c)
      × (k (pos + 3) ≡ d)
      × (k (pos + 4) ≡ e)
      × (k (pos + 5) ≡ f)
unfolding store_bytes store
six_bytes a b c d e f pos m = ground arith

two_bytes :
    (a b pos : ℕ) (m : Memory)
    → let k = store_bytes pos (a ∷ b ∷ []) m in (k pos ≡ a) × (k (pos + 1) ≡ b)
unfolding store_bytes store
two_bytes a b pos m = ground arith

word_back :
    (now a b c d : ℕ)
    → now < 4294967296
    → a ≡ now % 256
    → b ≡ now / 256 % 256
    → c ≡ now / 65536 % 256
    → d ≡ now / 16777216 % 256
    → a + b * 256 + c * 65536 + d * 16777216 ≡ now
word_back now a b c d h p q r u = omega (arith, p, q, r, u)

half_back : (n a b : ℕ) → n ≤ 127 → a ≡ n % 256 → b ≡ n / 256 % 256 → a + b * 256 ≡ n
half_back n a b h p q = omega (arith, h, p, q)

shift : (pos n : ℕ) → pos + 6 + n + 2 ≡ pos + 8 + n
shift pos n = omega arith

leb_of_lt : (a b : ℕ) → b < a → leb a b ≡ false
leb_of_lt a b h = ground arith

pub written-HoldsEntry :
    (m : Memory) (pos level now : ℕ) (t s : List ℕ)
    → now < 4294967296
    → length t ≤ 15
    → length s ≤ 127
    → HoldsEntry (written m pos level now t s) pos level now t s
written-HoldsEntry m pos level now t s n lt ls =
    let w = written m pos level now t s in
    let head = store_bytes pos (write_u32 now ++ (level % 256 ∷ length t % 256 ∷ [])) m in
    let tagged = store_bytes (pos + 6) t head in
    let sized = store_bytes (pos + 6 + length t) (write_u16 (length s)) tagged in
    let off = pos + 6 + length t in
    let six =
      six_bytes (now % 256) (now / 256 % 256) (now / 65536 % 256) (now / 16777216 % 256)
        (level % 256) (length t % 256) pos m in
    let two = two_bytes (length s % 256) (length s / 256 % 256) off tagged in
    let low = store_bytes_below s (pos + 8 + length t) off sized (omega arith) in
    let high = store_bytes_below s (pos + 8 + length t) (off + 1) sized (omega arith) in
    record {
      stamped =
          word_back now (w pos) (w (pos + 1)) (w (pos + 2)) (w (pos + 3)) n
            (written_head m pos level now t s pos (omega arith) ∙ six.0)
            (written_head m pos level now t s (pos + 1) (omega arith) ∙ six.1)
            (written_head m pos level now t s (pos + 2) (omega arith) ∙ six.2)
            (written_head m pos level now t s (pos + 3) (omega arith) ∙ six.3);
      leveled = written_head m pos level now t s (pos + 4) (omega arith) ∙ six.4;
      tag_length =
          written_head m pos level now t s (pos + 5) (omega arith) ∙ six.5 ∙ omega (arith, lt);
      tag_there =
          load_bytes_agree (length t) (pos + 6) (pos + 6) w tagged (λ j q.
            store_bytes_below s (pos + 8 + length t) (pos + 6 + j) sized (omega arith)
            ∙ store_bytes_below (write_u16 (length s)) off (pos + 6 + j) tagged (omega arith))
          ∙ load-store_bytes t (pos + 6) head;
      msg_length = half_back (length s) (w off) (w (off + 1)) ls (low ∙ two.0) (high ∙ two.1);
      msg_there =
          ap (λ a. load_bytes a (length s) w) (shift pos (length t))
          ∙ load-store_bytes s (pos + 8 + length t) sized;
    }

pub decode-HoldsEntry :
    (m : Memory) (size pos level now : ℕ) (t s : List ℕ)
    → HoldsEntry m pos level now t s
    → length t ≤ 15
    → length s ≤ 127
    → pos + (8 + length t + length s) ≤ size
    → decode_entry m size pos
      ≡ some (
        record { level = level % 256; timestamp_ms = now; tag = t; message = s },
        pos + (8 + length t + length s),
      )
unfolding decode_entry
decode-HoldsEntry m size pos level now t s h lt ls room =
    rw
      (
        h.tag_length,
        leb_of_lt 16 (length t) (omega (arith, lt)),
        h.msg_length,
        leb_of_lt 128 (length s) (omega (arith, ls)),
        ltb_of_le size (pos + 8) (omega (arith, room)),
        ltb_of_le size (pos + 6 + length t + 2) (omega (arith, room)),
        ltb_of_le size (pos + 6 + length t + 2 + length s) (omega (arith, room)),
        h.leveled,
        h.stamped,
        h.tag_there,
        h.msg_there,
      )
      refl

append_room :
    (b : LogBuf) (tag msg : List ℕ)
    → entry_size tag msg ≤ b.buf_size
    → append_pos b tag msg + entry_size tag msg ≤ b.buf_size
unfolding append_pos
append_room b tag msg h = ground arith

encode_room :
    (m : Memory) (pos cap level now : ℕ) (tag msg : List ℕ)
    → entry_size tag msg ≤ cap
    → encode_entry m pos cap level now tag msg
      ≡ (entry_size tag msg, written m pos level now (first_chars 15 tag) (first_chars 127 msg))
unfolding encode_entry
encode_room m pos cap level now tag msg h = rw (ltb_of_le cap (entry_size tag msg) h) refl

room_nonzero : (tag msg : List ℕ) (n : ℕ) → entry_size tag msg ≤ n → (n == 0) ≡ false
unfolding entry_size
room_nonzero tag msg n h = ground arith

pub append_result :
    (level now : ℕ) (tag msg : List ℕ) (b : LogBuf)
    → entry_size tag msg ≤ b.buf_size
    → log_buf_append level now tag msg b ≡ record b {
      buf =
          written b.buf (append_pos b tag msg) level now (first_chars 15 tag) (first_chars 127 msg);
      write_pos = append_pos b tag msg + entry_size tag msg;
      entry_count = add32 b.entry_count 1;
    }
unfolding log_buf_append
append_result level now tag msg b h =
    let pos = append_pos b tag msg in
    let cap : entry_size tag msg ≤ b.buf_size - pos = omega (arith, append_room b tag msg h) in
    rw
      (
        room_nonzero tag msg b.buf_size h,
        encode_room b.buf pos (b.buf_size - pos) level now tag msg cap,
      )
      refl

-- An entry that fits into the buffer, appended at a time in the range of its C type, reads back from
-- the place where it was written, at the end of the entries or at the start of the buffer: time,
-- level, tag and message, the last two cut to 15 and 127 characters. The next write is right behind
-- it, within the buffer.
pub append_reads_back :
    (level now : ℕ) (tag msg : List ℕ) (b : LogBuf)
    → now < 4294967296
    → entry_size tag msg ≤ b.buf_size
    → let b' = log_buf_append level now tag msg b in
      (decode_entry b'.buf b'.buf_size (append_pos b tag msg)
        ≡ some (
          record {
            level = level % 256;
            timestamp_ms = now;
            tag = first_chars 15 tag;
            message = first_chars 127 msg;
          },
          b'.write_pos,
        ))
      × (b'.write_pos ≤ b'.buf_size)
unfolding entry_size
append_reads_back level now tag msg b n h =
    let t = first_chars 15 tag in
    let s = first_chars 127 msg in
    let room = append_room b tag msg h in
    let held =
      written-HoldsEntry b.buf (append_pos b tag msg) level now t s n (first_chars_le 15 tag)
        (first_chars_le 127 msg) in
    rw (append_result level now tag msg b h) (
      decode-HoldsEntry (written b.buf (append_pos b tag msg) level now t s) b.buf_size
          (append_pos b tag msg) level now t s held (first_chars_le 15 tag) (first_chars_le 127 msg)
          room,
      room,
    )
