-- ===== src/Storage/Overrun.antt =====
-- How much the encodings of the log buffer write: firmware/components/storage/log_buf.c.
use companion_robot.Base.{
  ℕ, ◌+◌, ◌/◌, ◌%◌, ◌≤◌, ◌<◌, ◌≡◌, refl, ◌∙◌, inl, inr, some, ltb, ◌==◌, if◌then◌else◌, List, [],
  ◌∷◌, length, length-append, All, Bool-cases, ltb_of_lt, ltb_of_le, lt_or_le, false, arith,
}
use companion_robot.Base.Bytes.{Memory, store_bytes}
use companion_robot.Bcp.Types.{write_u16}
use companion_robot.Diag.LogRing.{LogEntry, first_chars}
use companion_robot.Storage.LogBuf.{LogBuf}
use companion_robot.Storage.Entries.{first_chars_le}
use companion_robot.Storage.Query.{
  log_buf_query, up_to_nul, recent_bytes, upload_bytes, encode_loop, log_buf_encode_recent,
  log_buf_encode_upload, log_level_warn,
}
use companion_robot.Storage.History.{Matches, log_buf_query_returns}

up_to_nul_le : (cs : List ℕ) → length (up_to_nul cs) ≤ length cs
unfolding up_to_nul
up_to_nul_le [] = omega arith
up_to_nul_le (c ∷ cs) = ground (arith, up_to_nul_le cs)

length-upload_bytes :
    (e : LogEntry)
    → length (upload_bytes e) ≡ 8 + length (up_to_nul e.tag) + length (up_to_nul e.message)
unfolding upload_bytes
length-upload_bytes e = ground (
  arith,
  length-append (up_to_nul e.tag) (
      length (up_to_nul e.message) % 256
      ∷ (length (up_to_nul e.message) / 256 % 256 ∷ up_to_nul e.message)),
)

length-recent_bytes :
    (e : LogEntry)
    → length (recent_bytes e)
      ≡ 3 + length (up_to_nul e.tag) + length (first_chars 48 (up_to_nul e.message))
unfolding recent_bytes
length-recent_bytes e = ground (
  arith,
  length-append (up_to_nul e.tag)
      (length (first_chars 48 (up_to_nul e.message)) % 256 ∷ first_chars 48 (up_to_nul e.message)),
)

nonzero : (n : ℕ) → 0 < n → (n == 0) ≡ false
nonzero n h = ground arith

-- If no entry takes more than `slack + 1 + extra` bytes, the loop stays below `buf_len + extra`.
encode_loop_le :
    (bytes : LogEntry → List ℕ) (slack extra buf_len : ℕ) (es : List LogEntry) (written count : ℕ)
    (m : Memory)
    → All (λ (e : LogEntry). length (bytes e) ≤ slack + 1 + extra) es
    → written ≤ buf_len + extra
    → (encode_loop bytes slack buf_len es written count m).0 ≤ buf_len + extra
unfolding encode_loop
encode_loop_le bytes slack extra buf_len [] written count m h k = k
encode_loop_le bytes slack extra buf_len (e ∷ es) written count m h k =
    elim (Bool-cases (ltb (written + slack) buf_len)) [
      | inl go ↦ rw go (
          encode_loop_le bytes slack extra buf_len es (written + length (bytes e)) (count + 1)
            (store_bytes written (bytes e) m) h.1 (ground (arith, h.0)))
      | inr stop ↦ rw stop k
    ]

encode_loop_ge :
    (bytes : LogEntry → List ℕ) (slack buf_len : ℕ) (es : List LogEntry) (written count : ℕ)
    (m : Memory)
    → written ≤ (encode_loop bytes slack buf_len es written count m).0
unfolding encode_loop
encode_loop_ge bytes slack buf_len [] written count m = omega arith
encode_loop_ge bytes slack buf_len (e ∷ es) written count m =
    elim (Bool-cases (ltb (written + slack) buf_len)) [
      | inl go ↦ rw go (
          omega (
            arith,
            encode_loop_ge bytes slack buf_len es (written + length (bytes e)) (count + 1)
                (store_bytes written (bytes e) m),
          ))
      | inr stop ↦ rw stop (omega arith)
    ]

All-upload_bytes :
    (level : ℕ) (es : List LogEntry)
    → All (Matches level) es
    → All (λ (e : LogEntry). length (upload_bytes e) ≤ 80 + 1 + 69) es
All-upload_bytes level [] h = tt
All-upload_bytes level (e ∷ es) (h, hs) = (
  omega (
    arith,
    length-upload_bytes e,
    up_to_nul_le e.tag,
    up_to_nul_le e.message,
    h.tag_fits,
    h.msg_fits,
  ),
  All-upload_bytes level es hs,
)

All-recent_bytes :
    (level : ℕ) (es : List LogEntry)
    → All (Matches level) es
    → All (λ (e : LogEntry). length (recent_bytes e) ≤ 64 + 1 + 1) es
All-recent_bytes level [] h = tt
All-recent_bytes level (e ∷ es) (h, hs) = (
  omega (
    arith,
    length-recent_bytes e,
    up_to_nul_le e.tag,
    first_chars_le 48 (up_to_nul e.message),
    h.tag_fits,
  ),
  All-recent_bytes level es hs,
)

upload_result :
    (b : LogBuf) (m : Memory) (buf_len level : ℕ) (es : List LogEntry)
    → (b.buf_size == 0) ≡ false
    → 2 ≤ buf_len
    → log_buf_query level 32 b ≡ some es
    → let w = encode_loop upload_bytes 80 buf_len es 2 0 m in
      log_buf_encode_upload b m buf_len level
      ≡ some (if ltb 2 w.0 then (w.0, store_bytes 0 (write_u16 w.0) w.2) else (0, w.2))
unfolding log_buf_encode_upload
upload_result b m buf_len level es s l q = simp (s, ltb_of_le buf_len 2 l, q) refl

recent_result :
    (b : LogBuf) (m : Memory) (buf_len : ℕ) (es : List LogEntry)
    → (b.buf_size == 0) ≡ false
    → 4 ≤ buf_len
    → log_buf_query log_level_warn 8 b ≡ some es
    → let w = encode_loop recent_bytes 64 buf_len es 2 0 m in
      log_buf_encode_recent b m buf_len
      ≡ some (if ltb 0 w.1 then (w.0, store_bytes 0 (write_u16 w.1) w.2) else (0, w.2))
unfolding log_buf_encode_recent
recent_result b m buf_len es s l q = simp (s, ltb_of_le buf_len 4 l, q) refl

upload_bounded :
    (b : LogBuf) (m : Memory) (buf_len level : ℕ)
    → (n : ℕ) × (k : Memory) × (log_buf_encode_upload b m buf_len level ≡ some (n, k))
      × (n ≤ buf_len + 69)
upload_bounded b m buf_len level = elim (Bool-cases (b.buf_size == 0)) [
  | inl e ↦ (0, m, unfold log_buf_encode_upload in simp e refl, omega arith)
  | inr e ↦ elim (lt_or_le buf_len 2) [
    | inl l ↦
        (0, m, unfold log_buf_encode_upload in simp (e, ltb_of_lt buf_len 2 l) refl, omega arith)
    | inr l ↦
        let (es, q, short, h) = log_buf_query_returns level 32 b in
        let w = encode_loop upload_bytes 80 buf_len es 2 0 m in
        let le =
          encode_loop_le upload_bytes 80 69 buf_len es 2 0 m (All-upload_bytes level es h)
            (omega arith) in
        elim (Bool-cases (ltb 2 w.0)) [
          | inl some_written ↦ (
            w.0,
            store_bytes 0 (write_u16 w.0) w.2,
            upload_result b m buf_len level es e l q ∙ simp some_written refl,
            le,
          )
          | inr none_written ↦ (
            0,
            w.2,
            upload_result b m buf_len level es e l q ∙ simp none_written refl,
            omega arith,
          )
        ]
  ]
]

recent_bounded :
    (b : LogBuf) (m : Memory) (buf_len : ℕ)
    → (n : ℕ) × (k : Memory) × (log_buf_encode_recent b m buf_len ≡ some (n, k)) × (n ≤ buf_len + 1)
recent_bounded b m buf_len = elim (Bool-cases (b.buf_size == 0)) [
  | inl e ↦ (0, m, unfold log_buf_encode_recent in simp e refl, omega arith)
  | inr e ↦ elim (lt_or_le buf_len 4) [
    | inl l ↦
        (0, m, unfold log_buf_encode_recent in simp (e, ltb_of_lt buf_len 4 l) refl, omega arith)
    | inr l ↦
        let (es, q, short, h) = log_buf_query_returns log_level_warn 8 b in
        let w = encode_loop recent_bytes 64 buf_len es 2 0 m in
        let le =
          encode_loop_le recent_bytes 64 1 buf_len es 2 0 m (All-recent_bytes log_level_warn es h)
            (omega arith) in
        elim (Bool-cases (ltb 0 w.1)) [
          | inl some_written ↦ (
            w.0,
            store_bytes 0 (write_u16 w.1) w.2,
            recent_result b m buf_len es e l q ∙ simp some_written refl,
            le,
          )
          | inr none_written ↦
              (0, w.2, recent_result b m buf_len es e l q ∙ simp none_written refl, omega arith)
        ]
  ]
]

-- Both encodings of the log buffer return, whatever it holds, and the number of bytes that they
-- write exceeds the length of the caller's buffer by at most 69 for an upload and by at most one
-- for the recent warnings.
pub encodings_bounded :
    (b : LogBuf) (m : Memory) (buf_len level : ℕ)
    → ((n : ℕ) × (k : Memory) × (log_buf_encode_upload b m buf_len level ≡ some (n, k))
        × (n ≤ buf_len + 69))
      × ((n : ℕ) × (k : Memory) × (log_buf_encode_recent b m buf_len ≡ some (n, k))
          × (n ≤ buf_len + 1))
encodings_bounded b m buf_len level = (upload_bounded b m buf_len level, recent_bounded b m buf_len)

-- The guard of an upload leaves 80 bytes for an entry, which can take 150. If the first entry found
-- is longer than the buffer has room for, and the buffer is longer than 82 bytes, the upload writes
-- past its end.
upload_overruns :
    (b : LogBuf) (m : Memory) (buf_len level : ℕ) (e : LogEntry) (es : List LogEntry)
    → log_buf_query level 32 b ≡ some (e ∷ es)
    → 0 < b.buf_size
    → 82 < buf_len
    → buf_len < 10 + length (up_to_nul e.tag) + length (up_to_nul e.message)
    → (n : ℕ) × (k : Memory) × (log_buf_encode_upload b m buf_len level ≡ some (n, k))
      × (buf_len < n)
upload_overruns b m buf_len level e es q s l h =
    let w = encode_loop upload_bytes 80 buf_len (e ∷ es) 2 0 m in
    let ge =
      encode_loop_ge upload_bytes 80 buf_len es (2 + length (upload_bytes e)) 1
        (store_bytes 2 (upload_bytes e) m) in
    let first : 2 + length (upload_bytes e) ≤ w.0 =
      unfold encode_loop in rw (ltb_of_lt 82 buf_len l) ge in
    let len = length-upload_bytes e in
    (
      w.0,
      store_bytes 0 (write_u16 w.0) w.2,
      upload_result b m buf_len level (e ∷ es) (nonzero b.buf_size s) (omega arith) q
          ∙ simp (ltb_of_lt 2 w.0 (omega (arith, first, len))) refl,
      omega (arith, first, len),
    )
