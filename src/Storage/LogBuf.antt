-- ===== src/Storage/LogBuf.antt =====
-- Entries of the log buffer: firmware/components/storage/log_buf.c. A string is the list of its
-- characters before the final 0; the `log_entry_t` of log_buf.h has the fields of the one of
-- log_upload.h.
use companion_robot.Base.{
  ℕ, ◌+◌, ◌-◌, ◌%◌, ◌*◌, Bool, true, false, Option, none, some, ltb, leb, ◌==◌, if◌then◌else◌, List,
  [], ◌∷◌, ◌++◌, length, add32,
}
use companion_robot.Base.Bytes.{Memory, zeroed, store_bytes, load_bytes}
use companion_robot.Bcp.Types.{write_u16}
use companion_robot.Bcp.Payload.{write_u32, read_u32}
use companion_robot.Diag.LogRing.{LogEntry, first_chars}

abbrev pub entry_overhead : ℕ
entry_overhead = 8

-- The file's globals; the size is 0 where there is no buffer.
pub record LogBuf : Type 0 where
  pub buf : Memory
  pub buf_size : ℕ
  pub write_pos : ℕ
  pub entry_count : ℕ

-- `log_buf_init`: the request, and whether one of the two allocations succeeds.
unfoldable pub log_buf_init : ℕ → Bool → LogBuf → LogBuf
log_buf_init size false b = record b { buf_size = 0 }
log_buf_init size true b = record {
  buf = zeroed;
  buf_size = if size == 0 then 32768 else size;
  write_pos = 0;
  entry_count = 0;
}

-- The bytes of an entry.
unfoldable pub entry_size : List ℕ → List ℕ → ℕ
entry_size tag msg = entry_overhead + length (first_chars 15 tag) + length (first_chars 127 msg)

-- `encode_entry` to the memory from `pos` on: the bytes written, and the memory.
unfoldable pub encode_entry : Memory → (pos dest_cap level now : ℕ) (tag msg : List ℕ) → ℕ × Memory
encode_entry m pos dest_cap level now tag msg =
    let t = first_chars 15 tag in
    let s = first_chars 127 msg in
    let head = store_bytes pos (write_u32 now ++ (level % 256 ∷ length t % 256 ∷ [])) m in
    let tagged = store_bytes (pos + 6) t head in
    let sized = store_bytes (pos + 6 + length t) (write_u16 (length s)) tagged in
    let total = entry_size tag msg in
    if ltb dest_cap total then (0, m) else (total, store_bytes (pos + 8 + length t) s sized)

-- `decode_entry`: the entry and the position after it.
unfoldable pub decode_entry : Memory → (buf_size pos : ℕ) → Option (LogEntry × ℕ)
decode_entry m buf_size pos =
    let tag_len = if leb 16 (m (pos + 5)) then 15 else m (pos + 5) in
    let off = pos + 6 + tag_len in
    let wide = m off + m (off + 1) * 256 in
    let msg_len = if leb 128 wide then 127 else wide in
    if ltb buf_size (pos + entry_overhead)
    then none
    else if ltb buf_size (off + 2)
    then none
    else if ltb buf_size (off + 2 + msg_len)
    then none
    else some (
      record {
        level = m (pos + 4);
        timestamp_ms = read_u32 m pos;
        tag = load_bytes (pos + 6) tag_len m;
        message = load_bytes (off + 2) msg_len m;
      },
      pos + (entry_overhead + tag_len + msg_len),
    )

-- Where `log_buf_append` writes.
unfoldable pub append_pos : LogBuf → List ℕ → List ℕ → ℕ
append_pos b tag msg = if ltb b.buf_size (b.write_pos + entry_size tag msg) then 0 else b.write_pos

-- `log_buf_append` with the formatted message.
unfoldable pub log_buf_append : (level now : ℕ) (tag msg : List ℕ) → LogBuf → LogBuf
log_buf_append level now tag msg b =
    let pos = append_pos b tag msg in
    let out = encode_entry b.buf pos (b.buf_size - pos) level now tag msg in
    if b.buf_size == 0
    then b
    else record b { buf = out.1; write_pos = pos + out.0; entry_count = add32 b.entry_count 1 }

unfoldable pub log_buf_clear : LogBuf → LogBuf
log_buf_clear b = record b { buf = zeroed; write_pos = 0; entry_count = 0 }
