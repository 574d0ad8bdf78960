-- ===== src/Storage/History.antt =====
-- What a query of the log buffer returns: firmware/components/storage/log_buf.c.
use companion_robot.Base.{
  ℕ, zero, suc, ◌+◌, ◌*◌, ◌/◌, ◌≤◌, ◌<◌, ◌≡◌, refl, ◌∙◌, ◌⊎◌, inl, inr, false, ◌&&◌, Option, none,
  some, ltb, leb, ◌==◌, if◌then◌else◌, List, [], ◌∷◌, ◌++◌, length, length-append, ltb_of_lt, All,
  Bool-cases, arith,
}
use companion_robot.Base.Bytes.{Memory, length-load_bytes}
use companion_robot.Diag.LogRing.{LogEntry}
use companion_robot.Storage.LogBuf.{LogBuf, decode_entry}
use companion_robot.Storage.Query.{keep_if, query_loop, log_buf_query}

decode_step :
    (m : Memory) (size pos : ℕ) (e : LogEntry) (p : ℕ)
    → decode_entry m size pos ≡ some (e, p)
    → (pos + 8 ≤ p) × (p ≤ size)
unfolding decode_entry
decode_step m size pos e p h = ground arith

-- An entry of the level asked for or below, with strings that fit into a `log_entry_t`.
pub record Matches (level : ℕ) (e : LogEntry) : Type 0 where
  pub low : e.level ≤ level
  pub tag_fits : length e.tag ≤ 15
  pub msg_fits : length e.message ≤ 127

decode_fits :
    (m : Memory) (size pos : ℕ) (e : LogEntry) (p : ℕ)
    → decode_entry m size pos ≡ some (e, p)
    → (length e.tag ≤ 15) × (length e.message ≤ 127)
unfolding decode_entry
decode_fits m size pos e p h =
    let tag_len = if leb 16 (m (pos + 5)) then 15 else m (pos + 5) in
    let off = pos + 6 + tag_len in
    let wide = m off + m (off + 1) * 256 in
    let msg_len = if leb 128 wide then 127 else wide in
    ground (arith, length-load_bytes tag_len (pos + 6) m, length-load_bytes msg_len (off + 2) m)

-- The part of a query's result that it has found.
record IsFound (level limit : ℕ) (out : List LogEntry) : Type 0 where
  short : length out ≤ limit
  matching : All (Matches level) out

All-snoc :
    (level : ℕ) (out : List LogEntry) (e : LogEntry)
    → All (Matches level) out
    → Matches level e
    → All (Matches level) (out ++ (e ∷ []))
All-snoc level [] e h p = (p, tt)
All-snoc level (x ∷ out) e h p = (h.0, All-snoc level out e h.1 p)

keep_if-IsFound :
    (level limit : ℕ) (e : LogEntry) (out : List LogEntry)
    → length out < limit
    → (length e.tag ≤ 15) × (length e.message ≤ 127)
    → IsFound level limit out
    → IsFound level limit (keep_if level e out)
unfolding keep_if
keep_if-IsFound level limit e out h k f = elim (Bool-cases (leb e.level level)) [
  | inl y ↦ rw y (record {
    short = omega (arith, length-append out (e ∷ []));
    matching =
        All-snoc level out e f.matching
          (record { low = ground arith; tag_fits = k.0; msg_fits = k.1 });
  })
  | inr n ↦ rw n f
]

decoded : (o : Option (LogEntry × ℕ)) → (o ≡ none) ⊎ ((e : LogEntry) × (p : ℕ) × (o ≡ some (e, p)))
decoded none = inl refl
decoded (some (e, p)) = inr (e, p, refl)

pub loop_steps :
    (f : ℕ) (m : Memory) (size level limit pos : ℕ) (out : List LogEntry) (e : LogEntry) (p : ℕ)
    → pos < size
    → length out < limit
    → decode_entry m size pos ≡ some (e, p)
    → query_loop (suc f) m size level limit pos out
      ≡ query_loop f m size level limit p (keep_if level e out)
unfolding query_loop
loop_steps f m size level limit pos out e p a b h =
    rw (ltb_of_lt pos size a, ltb_of_lt (length out) limit b, h) refl

pub loop_stops :
    (f : ℕ) (m : Memory) (size level limit pos : ℕ) (out : List LogEntry)
    → decode_entry m size pos ≡ none
    → query_loop (suc f) m size level limit pos out ≡ some out
unfolding query_loop
loop_stops f m size level limit pos out h =
    elim (Bool-cases (ltb pos size && ltb (length out) limit)) [
      | inl go ↦ rw (go, h) refl
      | inr done ↦ rw done refl
    ]

pub loop_full :
    (f : ℕ) (m : Memory) (size level limit pos : ℕ) (out : List LogEntry)
    → limit ≤ length out
    → query_loop (suc f) m size level limit pos out ≡ some out
unfolding query_loop
loop_full f m size level limit pos out h =
    let done : (ltb pos size && ltb (length out) limit) ≡ false = ground arith in rw done refl

query_loop_returns :
    (f : ℕ) (m : Memory) (size level limit pos : ℕ) (out : List LogEntry)
    → size + 8 ≤ pos + 8 * f
    → pos ≤ size
    → IsFound level limit out
    → (r : List LogEntry) × (query_loop f m size level limit pos out ≡ some r)
      × IsFound level limit r
query_loop_returns zero m size level limit pos out h p g = absurd (omega arith)
query_loop_returns (suc f) m size level limit pos out h p g =
    elim (Bool-cases (ltb pos size && ltb (length out) limit)) [
      | inl go ↦ elim (decoded (decode_entry m size pos)) [
        | inl stop ↦ (out, loop_stops f m size level limit pos out stop, g)
        | inr (e, p', more) ↦
            let s = decode_step m size pos e p' more in
            let g' =
              keep_if-IsFound level limit e out (ground arith) (decode_fits m size pos e p' more)
                g in
            let (r, q, k) =
              query_loop_returns f m size level limit p' (keep_if level e out) (omega arith) s.1
                g' in
            (
              r,
              loop_steps f m size level limit pos out e p' (ground arith) (ground arith) more ∙ q,
              k,
            )
      ]
      | inr done ↦ (out, unfold query_loop in rw done refl, g)
    ]

-- A query always ends, whatever bytes the buffer holds: it returns at most `limit` entries, all of
-- the level asked for or below, with tags of at most 15 and messages of at most 127 characters.
pub log_buf_query_returns :
    (level limit : ℕ) (b : LogBuf)
    → (r : List LogEntry) × (log_buf_query level limit b ≡ some r)
      × (length r ≤ limit)
      × All (Matches level) r
unfolding log_buf_query
log_buf_query_returns level limit b = elim (Bool-cases (b.buf_size == 0)) [
  | inl e ↦ ([], simp e, omega arith, tt)
  | inr e ↦ elim (Bool-cases (limit == 0)) [
    | inl d ↦ ([], simp (e, d), omega arith, tt)
    | inr d ↦
        let (r, q, k) =
          query_loop_returns (suc (b.buf_size / 8 + 1)) b.buf b.buf_size level limit 0 []
            (omega arith) (omega arith) (record { short = omega arith; matching = tt }) in
        (r, simp (e, d) q, k.short, k.matching)
  ]
]
