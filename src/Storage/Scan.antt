-- ===== src/Storage/Scan.antt =====
-- A query over entries that stand one behind the other: firmware/components/storage/log_buf.c.
use companion_robot.Base.{
  ℕ, zero, suc, ◌+◌, ◌*◌, ◌-◌, ◌/◌, ◌≤◌, ◌<◌, ◌≡◌, refl, ap, sym, ◌∙◌, inl, inr, none, some, leb,
  if◌then◌else◌, List, [], ◌∷◌, ◌++◌, length, length-append, take, replicate, take_all, take_full,
  Bool-cases, ltb_of_lt, lt_or_le, arith,
}
use mathlib.Core.List.{append-nil, append_assoc}
use companion_robot.Base.Bytes.{Memory, load_bytes}
use companion_robot.Diag.LogRing.{LogEntry, empty_entry}
use companion_robot.Storage.LogBuf.{decode_entry}
use companion_robot.Storage.Entries.{HoldsEntry, decode-HoldsEntry}
use companion_robot.Storage.Chain.{entry_len, Fits, Holds, Chain, Chain-le}
use companion_robot.Storage.Query.{keep_if, query_loop}
use companion_robot.Storage.History.{loop_steps, loop_stops, loop_full}

-- The entries of a level or below.
abbrev pub keep : ℕ → List LogEntry → List LogEntry
keep level [] = []
keep level (e ∷ es) = if leb e.level level then e ∷ keep level es else keep level es

abbrev Zero : Memory → ℕ → Type 0
Zero m pos = (j : ℕ) → pos ≤ j → m j ≡ 0

Zero-Holds : (m : Memory) (pos : ℕ) → Zero m pos → HoldsEntry m pos 0 0 [] []
unfolding load_bytes
Zero-Holds m pos z = record {
  stamped = ground (arith, z pos, z (pos + 1), z (pos + 2), z (pos + 3));
  leveled = z (pos + 4) (omega arith);
  tag_length = z (pos + 5) (omega arith);
  tag_there = refl;
  msg_length = ground (arith, z (pos + 6 + 0), z (pos + 6 + 0 + 1));
  msg_there = refl;
}

decode_short : (m : Memory) (size pos : ℕ) → size < pos + 8 → decode_entry m size pos ≡ none
unfolding decode_entry
decode_short m size pos h = rw (ltb_of_lt size (pos + 8) h) refl

keep_if_lem :
    (level : ℕ) (e : LogEntry) (out es : List LogEntry)
    → keep_if level e out ++ keep level es ≡ out ++ keep level (e ∷ es)
unfolding keep_if
keep_if_lem level e out es = elim (Bool-cases (leb e.level level)) [
  | inl y ↦ simp y (append_assoc out (e ∷ []) (keep level es))
  | inr n ↦ simp n refl
]

keep_if_le :
    (level limit : ℕ) (e : LogEntry) (out : List LogEntry)
    → length out < limit
    → length (keep_if level e out) ≤ limit
unfolding keep_if
keep_if_le level limit e out h = elim (Bool-cases (leb e.level level)) [
  | inl y ↦ rw y (omega (arith, length-append out (e ∷ [])))
  | inr n ↦ rw n (omega arith)
]

decode_blank :
    (m : Memory) (size pos : ℕ)
    → Zero m pos
    → pos + 8 ≤ size
    → decode_entry m size pos ≡ some (empty_entry, pos + 8)
decode_blank m size pos z h =
    decode-HoldsEntry m size pos 0 0 [] [] (Zero-Holds m pos z) (omega arith) (omega arith) h

keep_blank :
    (level : ℕ) (out : List LogEntry) → keep_if level empty_entry out ≡ out ++ (empty_entry ∷ [])
unfolding keep_if
keep_blank level out = ground arith

blanks : (size pos : ℕ) → pos + 8 ≤ size → (size - pos) / 8 ≡ suc ((size - (pos + 8)) / 8)
blanks size pos h = omega arith

no_blanks : (size pos : ℕ) → size < pos + 8 → (size - pos) / 8 ≡ 0
no_blanks size pos h = omega arith

query_blank :
    (f : ℕ) (m : Memory) (size level limit pos : ℕ) (out : List LogEntry)
    → Zero m pos
    → size + 8 ≤ pos + 8 * f
    → pos ≤ size
    → length out ≤ limit
    → query_loop f m size level limit pos out
      ≡ some (take limit (out ++ replicate ((size - pos) / 8) empty_entry))
query_blank zero m size level limit pos out z h p l = absurd (omega arith)
query_blank (suc f) m size level limit pos out z h p l = elim (lt_or_le size (pos + 8)) [
  | inl short ↦
      loop_stops f m size level limit pos out (decode_short m size pos short)
      ∙ rw (no_blanks size pos short, append-nil out, take_all out limit l) refl
  | inr room ↦ elim (lt_or_le (length out) limit) [
    | inl more ↦
        loop_steps f m size level limit pos out empty_entry (pos + 8) (omega arith) more
          (decode_blank m size pos z room)
        ∙ query_blank f m size level limit (pos + 8) (keep_if level empty_entry out)
            (λ j q. z j (omega arith)) (omega arith) room
            (keep_if_le level limit empty_entry out more)
        ∙ rw
            (
              keep_blank level out,
              blanks size pos room,
              append_assoc out (empty_entry ∷ []) (replicate ((size - (pos + 8)) / 8) empty_entry),
            )
            refl
    | inr full ↦
        loop_full f m size level limit pos out full
        ∙ rw (take_full out (replicate ((size - pos) / 8) empty_entry) limit l full) refl
  ]
]

decode_held :
    (m : Memory) (size pos : ℕ) (e : LogEntry)
    → Holds m pos e
    → Fits e
    → e.level < 256
    → pos + entry_len e ≤ size
    → decode_entry m size pos ≡ some (e, pos + entry_len e)
decode_held m size pos e h f l room =
    decode-HoldsEntry m size pos e.level e.timestamp_ms e.tag e.message h f.tag_fits f.msg_fits room
    ∙ ap (λ (n : ℕ). some (record e { level = n }, pos + entry_len e)) (omega (arith, l))

pub query-Chain :
    (es : List LogEntry) (f : ℕ) (m : Memory) (size level limit pos end : ℕ) (out : List LogEntry)
    → Chain m pos es end
    → Zero m end
    → size + 8 ≤ pos + 8 * f
    → end ≤ size
    → length out ≤ limit
    → query_loop f m size level limit pos out
      ≡ some (take limit (out ++ (keep level es ++ replicate ((size - end) / 8) empty_entry)))
query-Chain [] f m size level limit pos end out c z h p l =
    query_blank f m size level limit pos out (λ j q. z j (omega (arith, c, q))) h
      (omega (arith, c, p)) l
    ∙ rw c refl
query-Chain (e ∷ es) zero m size level limit pos end out (g, k, v, c) z h p l =
    absurd (omega (arith, Chain-le m es (pos + entry_len e) end c))
query-Chain (e ∷ es) (suc f) m size level limit pos end out (g, k, v, c) z h p l =
    let le = Chain-le m es (pos + entry_len e) end c in
    let rest = replicate ((size - end) / 8) empty_entry in
    elim (lt_or_le (length out) limit) [
      | inl more ↦
          loop_steps f m size level limit pos out e (pos + entry_len e) (omega (arith, le)) more
            (decode_held m size pos e g k v (omega (arith, le)))
          ∙ query-Chain es f m size level limit (pos + entry_len e) end (keep_if level e out) c z
              (omega arith) p (keep_if_le level limit e out more)
          ∙ ap (λ (xs : List LogEntry). some (take limit xs))
              (sym (append_assoc (keep_if level e out) (keep level es) rest)
                ∙ ap (λ (xs : List LogEntry). xs ++ rest) (keep_if_lem level e out es)
                ∙ append_assoc out (keep level (e ∷ es)) rest)
      | inr full ↦
          loop_full f m size level limit pos out full
          ∙ rw (take_full out (keep level (e ∷ es) ++ rest) limit l full) refl
    ]
