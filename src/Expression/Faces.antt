-- ===== src/Expression/Faces.antt =====
-- Which faces the display shows, and what a custom bitmap reads:
-- firmware/components/expression/face.c.
use companion_robot.Base.{
  ℕ, suc, ◌+◌, ◌-◌, ◌*◌, ◌/◌, ◌≤◌, ◌<◌, ◌≡◌, ◌≢◌, refl, ap, sym, ◌∙◌, inl, inr, true, false, ◌&&◌,
  Option, some, List, [], ◌∷◌, ◌++◌, replicate, Bool-cases, ltb, leb_of_lt, ◌==◌, if◌then◌else◌,
  arith,
}
use mathlib.Core.List.{append-nil}
use companion_robot.Base.Bytes.{Memory}
use companion_robot.Expression.Face.{
  FaceAct, FaceState, face_start, clear_display, row_buf, drawing, init_sequence, variants,
  face_set_expression, face_init, face_set_custom, face_neutral,
}
use companion_robot.Expression.FacePages.{held_after, held_after-append, cleared, drawn}

-- The first call of `face_init`, with the display found: the neutral face that it sets does not
-- show, since the display does not count as working yet. All pages are clear at the end.
first_face_missing :
    (now random page selected : ℕ) (held : List ℕ)
    → page < 8
    → let (f, acts) = face_init true now random face_start in
      (held_after page selected held acts ≡ replicate 128 0) × (f.display_ok ≡ true)
unfolding face_init face_set_expression
first_face_missing now random page selected held h =
    let (s, e) = held_after-append page selected held init_sequence clear_display in
    (
      ap (λ (l : List FaceAct). held_after page selected held (init_sequence ++ l))
            (append-nil clear_display)
          ∙ e
          ∙ cleared page s held h,
      refl,
    )

variants_lem : (e : ℕ) → e < 7 → e ≢ 5 → variants e ≡ some face_neutral
variants_lem e u n = ground arith

set_on :
    (f : FaceState) → (face_set_expression 0 (record f { bitmaps = variants })).0.bitmaps ≡ variants
unfolding face_set_expression
set_on f = elim (Bool-cases f.display_ok) [ inl e ↦ rw e refl | inr e ↦ rw e refl ]

drawn_for :
    (now random e : ℕ) (f : FaceState)
    → e < 7
    → (face_set_expression e (face_init true now random f).0).1 ≡ drawing (variants e)
unfolding face_init face_set_expression
drawn_for now random e f u =
    rw (leb_of_lt 7 e u) (ap (λ (b : ℕ → Option Memory). drawing (b e)) (set_on f))

-- After an initialisation that found the display, all expressions but the confused one send the
-- same writes, whatever was shown before; the confused one sends none, so that the face before it
-- stays.
faces_alike :
    (now random e e' : ℕ) (f : FaceState)
    → e < 7
    → e' < 7
    → e ≢ 5
    → e' ≢ 5
    → let g = (face_init true now random f).0 in
      ((face_set_expression e g).1 ≡ (face_set_expression e' g).1)
      × ((face_set_expression 5 g).1 ≡ [])
faces_alike now random e e' f u u' n n' = (
  drawn_for now random e f u
      ∙ ap drawing (variants_lem e u n ∙ sym (variants_lem e' u' n'))
      ∙ sym (drawn_for now random e' f u'),
  drawn_for now random 5 f (omega arith),
)

row_buf_step :
    (m : Memory) (x w r n col : ℕ)
    → row_buf m x w r (suc n) col
      ≡ (if ltb col (w / 8) && ltb (x + col * 8) 128 then m (r * (w / 8) + col) else 0)
        ∷ row_buf m x w r n (col + 1)
unfolding row_buf
row_buf_step m x w r n col = refl

first_drawn :
    (m : Memory) (x w i : ℕ)
    → 8 ≤ w
    → x < 128
    → (if ltb 0 (w / 8) && ltb (x + 0 * 8) 128 then m (i + 0) else 0) ≡ m i
first_drawn m x w i h k = ground arith

row_buf_first :
    (m : Memory) (x w r : ℕ)
    → 8 ≤ w
    → x < 128
    → row_buf m x w r 128 0 ≡ m (r * (w / 8)) ∷ row_buf m x w r 127 1
row_buf_first m x w r h k =
    row_buf_step m x w r 127 0
    ∙ ap (λ (b : ℕ). b ∷ row_buf m x w r 127 1) (first_drawn m x w (r * (w / 8)) h k)

-- A custom bitmap of 8 to 496 bytes, set on a display that counts as working, is read past its end:
-- page 5 ends with a row that begins with a byte from behind the `len` bytes.
custom_overreads :
    (m : Memory) (len selected : ℕ) (held : List ℕ) (f : FaceState)
    → f.display_ok ≡ true
    → 8 ≤ len
    → len ≤ 496
    → (i : ℕ) × (bytes : List ℕ) × (len ≤ i)
      × (held_after 5 selected held (face_set_custom m len f) ≡ m i ∷ bytes)
unfolding face_set_custom
custom_overreads m len selected held f ok l u =
    let not_full : (len == 1024) ≡ false = ground arith in
    let w = if ltb 128 len then 128 else len in
    let i = 31 * (w / 8) in
    let x = (128 - w) / 2 in
    (
      i,
      row_buf m x w 31 127 1,
      ground arith,
      rw (ok, not_full)
          (drawn 5 selected x w m held (omega arith)
            ∙ row_buf_first m x w 31 (ground arith) (ground arith)),
    )
