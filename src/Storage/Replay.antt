-- ===== src/Storage/Replay.antt =====
-- Queries after appends: firmware/components/storage/log_buf.c.
use companion_robot.Base.{
  ℕ, suc, ◌+◌, ◌-◌, ◌/◌, ◌%◌, ◌≤◌, ◌<◌, ◌≡◌, refl, ap, sym, subst, ◌∙◌, true, false, some, ◌==◌,
  List, [], ◌∷◌, ◌++◌, map, take, replicate, All, arith, add32,
}
use mathlib.Core.List.{append-nil, append_assoc}
use companion_robot.Base.Bytes.{Memory}
use companion_robot.Diag.LogRing.{LogEntry, first_chars, empty_entry}
use companion_robot.Storage.LogBuf.{LogBuf, log_buf_init, entry_size, append_pos, log_buf_append}
use companion_robot.Storage.Entries.{
  HoldsEntry, written, first_chars_le, written-HoldsEntry, append_result,
}
use companion_robot.Storage.Chain.{entry_len, Chain, Chain-written, written_before, written_after}
use companion_robot.Storage.Scan.{keep, query-Chain}
use companion_robot.Storage.Query.{log_buf_query}

-- A call of `log_buf_append`, at a time.
pub record LogCall : Type 0 where
  pub level : ℕ
  pub now : ℕ
  pub tag : List ℕ
  pub message : List ℕ

-- The entry that it leaves in the buffer.
abbrev pub logged : LogCall → LogEntry
logged c = record {
  level = c.level % 256;
  timestamp_ms = c.now;
  tag = first_chars 15 c.tag;
  message = first_chars 127 c.message;
}

unfoldable pub append_all : List LogCall → LogBuf → LogBuf
append_all [] b = b
append_all (c ∷ cs) b = append_all cs (log_buf_append c.level c.now c.tag c.message b)

unfoldable pub total_size : List LogCall → ℕ
total_size [] = 0
total_size (c ∷ cs) = entry_len (logged c) + total_size cs

-- The buffer holds the entries from its start, and zeros behind them.
pub record IsLog (b : LogBuf) (es : List LogEntry) : Type 0 where
  chain : Chain b.buf 0 es b.write_pos
  rest : (j : ℕ) → b.write_pos ≤ j → b.buf j ≡ 0
  room : b.write_pos ≤ b.buf_size

-- The buffer with one more entry at its write position.
abbrev appended : LogCall → LogBuf → LogBuf
appended c b = record b {
  buf = written b.buf b.write_pos c.level c.now (first_chars 15 c.tag) (first_chars 127 c.message);
  write_pos = b.write_pos + entry_len (logged c);
  entry_count = add32 b.entry_count 1;
}

append_there :
    (b : LogBuf) (c : LogCall)
    → b.write_pos + entry_len (logged c) ≤ b.buf_size
    → append_pos b c.tag c.message ≡ b.write_pos
unfolding append_pos entry_size
append_there b c h = ground arith

append-appended :
    (b : LogBuf) (c : LogCall)
    → b.write_pos + entry_len (logged c) ≤ b.buf_size
    → log_buf_append c.level c.now c.tag c.message b ≡ appended c b
unfolding entry_size
append-appended b c h =
    append_result c.level c.now c.tag c.message b (omega arith)
    ∙ ap
        (λ (p : ℕ). record b {
          buf = written b.buf p c.level c.now (first_chars 15 c.tag) (first_chars 127 c.message);
          write_pos = p + entry_len (logged c);
          entry_count = add32 b.entry_count 1;
        })
        (append_there b c h)

low_level :
    (m : Memory) (pos level now : ℕ) (t s : List ℕ)
    → HoldsEntry m pos level now t s
    → HoldsEntry m pos (level % 256) now t s
low_level m pos level now t s h = record {
  stamped = h.stamped;
  leveled = omega (arith, h.leveled);
  tag_length = h.tag_length;
  tag_there = h.tag_there;
  msg_length = h.msg_length;
  msg_there = h.msg_there;
}

appended-IsLog :
    (b : LogBuf) (es : List LogEntry) (c : LogCall)
    → c.now < 4294967296
    → b.write_pos + entry_len (logged c) ≤ b.buf_size
    → IsLog b es
    → IsLog (appended c b) (es ++ (logged c ∷ []))
appended-IsLog b es c n r h =
    let t = first_chars 15 c.tag in
    let s = first_chars 127 c.message in
    let lt = first_chars_le 15 c.tag in
    let ls = first_chars_le 127 c.message in
    let k = written b.buf b.write_pos c.level c.now t s in
    record {
      chain =
          Chain-written k b.buf es (logged c) b.write_pos
            (λ j p q. written_before b.buf b.write_pos c.level c.now t s j q) h.chain
            (low_level k b.write_pos c.level c.now t s
              (written-HoldsEntry b.buf b.write_pos c.level c.now t s n lt ls))
            (record { tag_fits = lt; msg_fits = ls }) (omega arith);
      rest = λ j p.
          written_after b.buf b.write_pos c.level c.now t s j p ∙ h.rest j (omega (arith, p));
      room = r;
    }

nonzero : (n : ℕ) → 0 < n → (n == 0) ≡ false
nonzero n h = ground arith

init-IsLog :
    (size : ℕ) (b : LogBuf)
    → 0 < size
    → IsLog (log_buf_init size true b) []
      × ((log_buf_init size true b).buf_size ≡ size)
      × ((log_buf_init size true b).write_pos ≡ 0)
unfolding log_buf_init
init-IsLog size b h =
    rw (nonzero size h)
      (record { chain = refl; rest = λ j p. refl; room = omega arith }, refl, refl)

-- The times of the calls are in the range of their C type.
abbrev pub InTime : LogCall → Type 0
InTime c = c.now < 4294967296

-- The buffer `b'` after calls on `b`, which held the entries `es`.
abbrev IsAfter : LogBuf → List LogEntry → List LogCall → LogBuf → Type 0
IsAfter b es cs b' =
    IsLog b' (es ++ map logged cs)
    × (b'.write_pos ≡ b.write_pos + total_size cs)
    × (b'.buf_size ≡ b.buf_size)

append_all-IsAfter :
    (cs : List LogCall) (b : LogBuf) (es : List LogEntry)
    → All InTime cs
    → b.write_pos + total_size cs ≤ b.buf_size
    → IsLog b es
    → IsAfter b es cs (append_all cs b)
unfolding append_all total_size
append_all-IsAfter [] b es t r h = (subst (IsLog b) (sym (append-nil es)) h, omega arith, refl)
append_all-IsAfter (c ∷ cs) b es (t, ts) r h =
    let step = append-appended b c (omega arith) in
    let rest =
      append_all-IsAfter cs (appended c b) (es ++ (logged c ∷ [])) ts (omega arith)
        (appended-IsLog b es c t (omega arith) h) in
    subst (IsAfter b es (c ∷ cs)) (sym (ap (append_all cs) step)) (
      subst (IsLog (append_all cs (appended c b))) (append_assoc es (logged c ∷ []) (map logged cs))
          rest.0,
      omega (arith, rest.1),
      rest.2,
    )

query-IsLog :
    (b : LogBuf) (es : List LogEntry) (level limit : ℕ)
    → 0 < b.buf_size
    → 0 < limit
    → IsLog b es
    → log_buf_query level limit b
      ≡ some (take limit (keep level es ++ replicate ((b.buf_size - b.write_pos) / 8) empty_entry))
unfolding log_buf_query
query-IsLog b es level limit p q h =
    simp (nonzero b.buf_size p, nonzero limit q)
      (query-Chain es (suc (b.buf_size / 8 + 1)) b.buf b.buf_size level limit 0 b.write_pos []
        h.chain h.rest (omega arith) h.room (omega arith))

-- A query after any appends to a new buffer that fit into it, at times in the range of their C
-- type. It returns the entries of the level asked for or below in the order of the calls, each with
-- its tag and message cut to 15 and 127 characters, and behind them, up to the limit, one blank
-- entry of level 0 for each eight bytes of the buffer that were never written.
pub query_after_appends :
    (cs : List LogCall) (size level limit : ℕ) (b : LogBuf)
    → All InTime cs
    → 0 < size
    → total_size cs ≤ size
    → 0 < limit
    → log_buf_query level limit (append_all cs (log_buf_init size true b))
      ≡ some (
          take limit
            (keep level (map logged cs) ++ replicate ((size - total_size cs) / 8) empty_entry))
query_after_appends cs size level limit b t p r q =
    let start = init-IsLog size b p in
    let (h, w, s) =
      append_all-IsAfter cs (log_buf_init size true b) [] t (omega (arith, start.1, start.2))
        start.0 in
    query-IsLog (append_all cs (log_buf_init size true b)) (map logged cs) level limit
      (omega (arith, s, start.1)) q h
    ∙ ap
        (λ (n : ℕ). some (take limit (keep level (map logged cs) ++ replicate (n / 8) empty_entry)))
        (omega (arith, s, w, start.1, start.2))
