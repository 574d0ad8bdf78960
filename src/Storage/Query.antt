-- ===== src/Storage/Query.antt =====
-- Queries of the log buffer and their encodings: firmware/components/storage/log_buf.c. A caller's
-- buffer is a memory and its length; it and `out` are not NULL.
use companion_robot.Base.{
  ℕ, zero, suc, ◌+◌, ◌%◌, ◌/◌, ◌&&◌, Option, none, some, ltb, leb, ◌==◌, if◌then◌else◌, List, [],
  ◌∷◌, ◌++◌, length,
}
use companion_robot.Base.Bytes.{Memory, store_bytes}
use companion_robot.Bcp.Types.{write_u16}
use companion_robot.Bcp.Payload.{write_u32}
use companion_robot.Diag.LogRing.{LogEntry, first_chars}
use companion_robot.Storage.LogBuf.{LogBuf, decode_entry}

-- `if (entry.level <= level) out[found++] = entry`.
unfoldable pub keep_if : ℕ → LogEntry → List LogEntry → List LogEntry
keep_if level e out = if leb e.level level then out ++ (e ∷ []) else out

-- The loop of `log_buf_query`, on fuel; `none` means that the fuel ran out.
unfoldable pub query_loop :
    (fuel : ℕ) (m : Memory) (buf_size level limit pos : ℕ) (out : List LogEntry)
    → Option (List LogEntry)
query_loop zero m buf_size level limit pos out = none
query_loop (suc f) m buf_size level limit pos out =
    let rest : Option (List LogEntry) = elim (decode_entry m buf_size pos) [
      | none ↦ some out
      | some (e, pos') ↦ query_loop f m buf_size level limit pos' (keep_if level e out)
    ] in
    if ltb pos buf_size && ltb (length out) limit then rest else some out

-- `log_buf_query`; each entry takes eight bytes at least.
unfoldable pub log_buf_query : (level limit : ℕ) → LogBuf → Option (List LogEntry)
log_buf_query level limit b =
    if b.buf_size == 0
    then some []
    else if limit == 0
    then some []
    else query_loop (suc (b.buf_size / 8 + 1)) b.buf b.buf_size level limit 0 []

-- The characters that `strlen` counts.
unfoldable pub up_to_nul : List ℕ → List ℕ
up_to_nul [] = []
up_to_nul (c ∷ cs) = let rest = up_to_nul cs in if c == 0 then [] else c ∷ rest

abbrev pub log_level_warn : ℕ
log_level_warn = 2

-- What `log_buf_encode_recent` writes for an entry.
unfoldable pub recent_bytes : LogEntry → List ℕ
unfolding up_to_nul
recent_bytes e =
    let tag = up_to_nul e.tag in
    let msg = first_chars 48 (up_to_nul e.message) in
    (e.level % 256 ∷ (length tag % 256 ∷ tag)) ++ (length msg % 256 ∷ msg)

-- What `log_buf_encode_upload` writes for an entry.
unfoldable pub upload_bytes : LogEntry → List ℕ
unfolding up_to_nul
upload_bytes e =
    let tag = up_to_nul e.tag in
    let msg = up_to_nul e.message in
    write_u32 e.timestamp_ms
    ++ ((e.level % 256 ∷ (length tag % 256 ∷ tag)) ++ (write_u16 (length msg) ++ msg))

-- The loops of both: `bytes` of an entry are written while `written + slack < buf_len`. The bytes
-- written, the entries and the memory.
unfoldable pub encode_loop :
    (LogEntry → List ℕ)
    → (slack buf_len : ℕ) → List LogEntry
    → (written count : ℕ) → Memory
    → ℕ × ℕ × Memory
encode_loop bytes slack buf_len [] written count m = (written, count, m)
encode_loop bytes slack buf_len (e ∷ es) written count m =
    let rest =
      encode_loop bytes slack buf_len es (written + length (bytes e)) (count + 1)
        (store_bytes written (bytes e) m) in
    if ltb (written + slack) buf_len then rest else (written, count, m)

-- `log_buf_encode_recent`: the bytes written and the memory.
unfoldable pub log_buf_encode_recent : LogBuf → Memory → (buf_len : ℕ) → Option (ℕ × Memory)
log_buf_encode_recent b m buf_len =
    if b.buf_size == 0
    then some (0, m)
    else if ltb buf_len 4
    then some (0, m)
    else elim (log_buf_query log_level_warn 8 b) [
      | none ↦ none
      | some entries ↦
          let (written, count, m') = encode_loop recent_bytes 64 buf_len entries 2 0 m in
          some (if ltb 0 count then (written, store_bytes 0 (write_u16 count) m') else (0, m'))
    ]

-- `log_buf_encode_upload`.
unfoldable pub log_buf_encode_upload : LogBuf → Memory → (buf_len level : ℕ) → Option (ℕ × Memory)
log_buf_encode_upload b m buf_len level =
    if b.buf_size == 0
    then some (0, m)
    else if ltb buf_len 2
    then some (0, m)
    else elim (log_buf_query level 32 b) [
      | none ↦ none
      | some entries ↦
          let (written, count, m') = encode_loop upload_bytes 80 buf_len entries 2 0 m in
          some (if ltb 2 written then (written, store_bytes 0 (write_u16 written) m') else (0, m'))
    ]

-- `log_buf_count`.
abbrev pub log_buf_count : LogBuf → ℕ
log_buf_count b = b.entry_count
