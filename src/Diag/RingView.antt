-- ===== src/Diag/RingView.antt =====
-- The ring as a bounded queue that drops its oldest entry:
-- firmware/components/diagnostic/log_upload.c.
use companion_robot.Base.{
  ℕ, zero, suc, ◌+◌, ◌-◌, ◌%◌, ◌<◌, ◌≤◌, ◌≡◌, true, false, none, some, ltb, ◌==◌, if◌then◌else◌,
  List, [], ◌∷◌, ◌++◌, length, refl, sym, ap, subst, arith, Bool-cases, inl, inr, ◌∙◌, ◌≢◌,
}
use companion_robot.Diag.LogRing.{
  log_ring_size, LogEntry, LogRing, log_upload_init, put_slot, store_entry, log_pop_pending,
}

-- The indices are within the ring, and the next write is `count` entries after the next read.
pub record IsRing (r : LogRing) : Type 0 where
  pub tail_in : r.tail < log_ring_size
  pub count_in : r.count ≤ log_ring_size
  pub head_at : r.head ≡ (r.tail + r.count) % log_ring_size

-- `n` entries from a position on.
unfoldable pub entries : (ℕ → LogEntry) → ℕ → ℕ → List LogEntry
entries slots t zero = []
entries slots t (suc n) = slots t ∷ entries slots ((t + 1) % log_ring_size) n

-- The pending entries, the oldest first.
abbrev pub view : LogRing → List LogEntry
view r = entries r.slots r.tail r.count

-- The promise: a queue of at most 64 entries in which a new one displaces the oldest.
unfoldable pub drop_oldest : List LogEntry → List LogEntry
drop_oldest [] = []
drop_oldest (e ∷ es) = es

unfoldable pub enqueue : LogEntry → List LogEntry → List LogEntry
enqueue e es = if ltb (length es) log_ring_size then es ++ (e ∷ []) else drop_oldest es ++ (e ∷ [])

ltb-true : (a b : ℕ) → ltb a b ≡ true → a < b
ltb-true a b h = ground arith

ltb-false : (a b : ℕ) → ltb a b ≡ false → b ≤ a
ltb-false a b h = ground arith

add_one : (n : ℕ) → n + 1 ≡ suc n
add_one n = omega arith

suc_sub_one : (n : ℕ) → suc n - 1 ≡ n
suc_sub_one n = omega arith

suc_is_nonzero : (n : ℕ) → (suc n == 0) ≡ false
suc_is_nonzero n = ground arith

length-entries : (slots : ℕ → LogEntry) (t n : ℕ) → length (entries slots t n) ≡ n
unfolding entries
length-entries slots t zero = refl
length-entries slots t (suc n) = omega (arith, length-entries slots ((t + 1) % log_ring_size) n)

put_slot_other :
    (a b : ℕ) (e : LogEntry) (slots : ℕ → LogEntry) → b ≢ a → put_slot a e slots b ≡ slots b
put_slot_other a b e slots h = ground arith

put_slot_same : (a b : ℕ) (e : LogEntry) (slots : ℕ → LogEntry) → b ≡ a → put_slot a e slots b ≡ e
put_slot_same a b e slots h = ground arith

next_offset :
    (t n : ℕ)
    → t < log_ring_size
    → (t + suc n) % log_ring_size ≡ ((t + 1) % log_ring_size + n) % log_ring_size
next_offset t n h = omega arith

apart : (t n : ℕ) → t < log_ring_size → suc n < log_ring_size → t ≢ (t + suc n) % log_ring_size
apart t n h k = λ e. omega (arith, e)

-- Writing past the last entry adds it; the other entries stay.
entries_put :
    (slots : ℕ → LogEntry) (e : LogEntry) (a t n : ℕ)
    → t < log_ring_size
    → n < log_ring_size
    → a ≡ (t + n) % log_ring_size
    → entries (put_slot a e slots) t (suc n) ≡ entries slots t n ++ (e ∷ [])
unfolding entries
entries_put slots e a t zero h k p =
    ap (λ x. x ∷ []) (put_slot_same a t e slots (omega (arith, p, h)))
entries_put slots e a t (suc n) h k p =
    let t' = (t + 1) % log_ring_size in
    let rest =
      entries_put slots e a t' n (omega arith) (omega (arith, k)) (p ∙ next_offset t n h) in
    let keep = put_slot_other a t e slots (λ q. apart t n h k (q ∙ p)) in
    ap (λ x. x ∷ entries (put_slot a e slots) t' (suc n)) keep ∙ ap (λ xs. slots t ∷ xs) rest

pub log_upload_init-IsRing : IsRing log_upload_init
unfolding log_upload_init
log_upload_init-IsRing = ground arith

pub store_entry-IsRing : (e : LogEntry) (r : LogRing) → IsRing r → IsRing (store_entry e r)
unfolding store_entry
store_entry-IsRing e r h = ground arith

entries_full :
    (slots : ℕ → LogEntry) (e : LogEntry) (a t : ℕ)
    → t < log_ring_size
    → a ≡ (t + 64) % log_ring_size
    → entries (put_slot a e slots) ((t + 1) % log_ring_size) 64
      ≡ drop_oldest (entries slots t 64) ++ (e ∷ [])
unfolding entries drop_oldest
entries_full slots e a t h p =
    entries_put slots e a ((t + 1) % log_ring_size) 63 (omega arith) (omega arith)
      (omega (arith, p, h))

pub store_entry-view :
    (e : LogEntry) (r : LogRing) → IsRing r → view (store_entry e r) ≡ enqueue e (view r)
unfolding store_entry enqueue
store_entry-view e r h = elim (Bool-cases (ltb r.count log_ring_size)) [
  | inl f ↦
      rw (length-entries r.slots r.tail r.count, f, add_one r.count)
        (entries_put r.slots e r.head r.tail r.count h.tail_in
          (omega (arith, ltb-true r.count log_ring_size f)) h.head_at)
  | inr f ↦
      let c : r.count ≡ 64 = omega (arith, h.count_in, ltb-false r.count log_ring_size f) in
      rw (length-entries r.slots r.tail r.count, f)
        (subst
          (λ n.
            entries (put_slot r.head e r.slots) ((r.tail + 1) % log_ring_size) n
            ≡ drop_oldest (entries r.slots r.tail n) ++ (e ∷ []))
          (sym c)
          (entries_full r.slots e r.head r.tail h.tail_in
            (h.head_at ∙ ap (λ n. (r.tail + n) % log_ring_size) c)))
]

-- A pop of a ring: it is empty, or its oldest entry leaves.
pub data IsPop (r : LogRing) : Type 0 where
  nothing : log_pop_pending r ≡ none → view r ≡ [] → IsPop r
  popped :
      (r' : LogRing)
      → log_pop_pending r ≡ some (r.slots r.tail, r')
      → IsRing r'
      → view r ≡ r.slots r.tail ∷ view r'
      → IsPop r

IsPop-cases_of :
    (slots : ℕ → LogEntry) (head tail count : ℕ)
    → let r : LogRing = record { slots = slots; head = head; tail = tail; count = count } in
      IsRing r → IsPop r
unfolding log_pop_pending entries
IsPop-cases_of slots head tail zero h = nothing refl refl
IsPop-cases_of slots head tail (suc n) h =
    popped (record { slots = slots; head = head; tail = (tail + 1) % log_ring_size; count = n })
      (rw (suc_is_nonzero n, suc_sub_one n) refl)
      (record {
        tail_in = omega arith;
        count_in = omega (arith, h.count_in);
        head_at = h.head_at ∙ next_offset tail n h.tail_in;
      })
      refl

pub IsPop-cases : (r : LogRing) → IsRing r → IsPop r
IsPop-cases r h = IsPop-cases_of r.slots r.head r.tail r.count h
