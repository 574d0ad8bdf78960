-- ===== src/Expression/FacePages.antt =====
-- What the writes of the face leave in the display's pages: firmware/components/expression/face.c.
use companion_robot.Base.{
  ℕ, zero, suc, ◌+◌, ◌-◌, ◌*◌, ◌/◌, ◌%◌, ◌≤◌, ◌<◌, ◌≡◌, refl, ap, ◌∙◌, ◌⊎◌, inl, inr, true, ◌&&◌,
  some, List, [], ◌∷◌, ◌++◌, replicate, Bool-cases, lt_or_le, ltb, leb, leb_of_lt, leb_of_le, ◌==◌,
  if◌then◌else◌, arith,
}
use companion_robot.Base.Bytes.{Memory}
use companion_robot.Expression.Face.{
  FaceAct, write_cmd, write_data, FaceState, seek, fill_pages, clear_display, row_buf, draw_rows,
  draw_bitmap, face_set_expression,
}

-- The page selected after a command: those from 0xB0 to 0xB7 select one.
abbrev pub selects : (cmd selected : ℕ) → ℕ
selects c selected = if leb 0xB0 c && ltb c 0xB8 then c - 0xB0 else selected

-- The data last written to a page, for the page selected and the data held before.
abbrev pub held_after : (page selected : ℕ) → List ℕ → List FaceAct → List ℕ
held_after page selected held [] = held
held_after page selected held (write_cmd c ∷ acts) = held_after page (selects c selected) held acts
held_after page selected held (write_data d ∷ acts) =
    held_after page selected (if selected == page then d else held) acts

selects_page : (p selected : ℕ) → p < 8 → selects (0xB0 + p) selected ≡ p
selects_page p selected h = ground arith

selects_column :
    (x selected : ℕ) → selects (0x10 + (x / 16) % 16) (selects (x % 16) selected) ≡ selected
selects_column x selected = ground arith

held_after-seek :
    (page selected p x : ℕ) (held d : List ℕ) (acts : List FaceAct)
    → p < 8
    → held_after page selected held (seek p x ++ (write_data d ∷ acts))
      ≡ held_after page p (if p == page then d else held) acts
held_after-seek page selected p x held d acts h =
    ap (λ (s : ℕ). held_after page s (if s == page then d else held) acts)
      (selects_column x (selects (0xB0 + p) selected) ∙ selects_page p selected h)

-- A row of a drawing, on its page or below the display.
draw_rows_step :
    (page selected x y w n row : ℕ) (bm : Memory) (held : List ℕ)
    → let p = (y + row) / 8 in
      p < 8
      → held_after page selected held (draw_rows bm x y w (suc n) row)
        ≡ held_after page p
            (if p == page then row_buf bm x w row 128 0 else held)
            (draw_rows bm x y w n (row + 1))
unfolding draw_rows
draw_rows_step page selected x y w n row bm held h = rw (leb_of_lt 8 ((y + row) / 8) h) (
    held_after-seek page selected ((y + row) / 8) x held (row_buf bm x w row 128 0)
      (draw_rows bm x y w n (row + 1)) h)

draw_rows_below :
    (page selected x y w n row : ℕ) (bm : Memory) (held : List ℕ)
    → 8 ≤ (y + row) / 8
    → held_after page selected held (draw_rows bm x y w (suc n) row)
      ≡ held_after page selected held (draw_rows bm x y w n (row + 1))
unfolding draw_rows
draw_rows_below page selected x y w n row bm held h = rw (leb_of_le 8 ((y + row) / 8) h) refl

-- Pages that a drawing has passed, or does not reach, hold what they held.
draw_rows_beside :
    (page selected x y w n row : ℕ) (bm : Memory) (held : List ℕ)
    → (page < (y + row) / 8) ⊎ ((y + row + n) ≤ page * 8)
    → page < 8
    → held_after page selected held (draw_rows bm x y w n row) ≡ held
unfolding draw_rows
draw_rows_beside page selected x y w zero row bm held h k = refl
draw_rows_beside page selected x y w (suc n) row bm held h k = elim (lt_or_le ((y + row) / 8) 8) [
  | inl low ↦
      draw_rows_step page selected x y w n row bm held low
      ∙ draw_rows_beside page ((y + row) / 8) x y w n (row + 1) bm _ (omega arith) k
      ∙ ground arith
  | inr high ↦
      draw_rows_below page selected x y w n row bm held high
      ∙ draw_rows_beside page selected x y w n (row + 1) bm held (omega arith) k
]

-- The last row that a page gets is the one that it holds.
draw_rows_last :
    (page selected x y w n row r : ℕ) (bm : Memory) (held : List ℕ)
    → page < 8
    → y + r ≡ page * 8 + 7
    → row ≤ r
    → r < row + n
    → held_after page selected held (draw_rows bm x y w n row) ≡ row_buf bm x w r 128 0
draw_rows_last page selected x y w zero row r bm held p e l u = absurd (omega arith)
draw_rows_last page selected x y w (suc n) row r bm held p e l u =
    draw_rows_step page selected x y w n row bm held (omega arith) ∙ elim (lt_or_le row r) [
      | inl more ↦
          draw_rows_last page ((y + row) / 8) x y w n (row + 1) r bm _ p e (omega arith)
            (omega arith)
      | inr last ↦
          draw_rows_beside page ((y + row) / 8) x y w n (row + 1) bm _ (omega arith) p
          ∙ ground arith
    ]

pub held_after-append :
    (page selected : ℕ) (held : List ℕ) (xs ys : List FaceAct)
    → (s : ℕ) × (held_after page selected held (xs ++ ys)
        ≡ held_after page s (held_after page selected held xs) ys)
held_after-append page selected held [] ys = (selected, refl)
held_after-append page selected held (write_cmd c ∷ xs) ys =
    held_after-append page (selects c selected) held xs ys
held_after-append page selected held (write_data d ∷ xs) ys =
    held_after-append page selected (if selected == page then d else held) xs ys

-- Pages that are filled hold what they were filled with.
fill_pages-held :
    (f : ℕ → List ℕ) (page selected n p : ℕ) (held : List ℕ)
    → p + n ≤ 8
    → held_after page selected held (fill_pages f n p)
      ≡ (if leb p page && ltb page (p + n) then f page else held)
unfolding fill_pages
fill_pages-held f page selected zero p held h = ground arith
fill_pages-held f page selected (suc n) p held h =
    held_after-seek page selected p 0 held (f p) (fill_pages f n (p + 1)) (omega arith)
    ∙ fill_pages-held f page p n (p + 1) (if p == page then f p else held) (omega arith)
    ∙ ground arith

pub cleared :
    (page selected : ℕ) (held : List ℕ)
    → page < 8
    → held_after page selected held clear_display ≡ replicate 128 0
unfolding clear_display
cleared page selected held h =
    fill_pages-held (λ p. replicate 128 0) page selected 8 0 held (omega arith) ∙ ground arith

-- A row of a bitmap of the faces' size.
abbrev pub face_row : Memory → ℕ → List ℕ
face_row bm r = bm (r * 4 + 0) ∷ bm (r * 4 + 1) ∷ bm (r * 4 + 2) ∷ bm (r * 4 + 3) ∷ replicate 124 0

row_buf-face_row : (bm : Memory) (r : ℕ) → row_buf bm 48 32 r 128 0 ≡ face_row bm r
unfolding row_buf
row_buf-face_row bm r = refl

-- A drawing over a cleared display leaves, on each page that it covers to the end, its last row
-- there, and the other pages clear.
pub drawn :
    (page selected x w : ℕ) (bm : Memory) (held : List ℕ)
    → page < 8
    → held_after page selected held (clear_display ++ draw_bitmap bm x 16 w 32)
      ≡ (if leb 2 page && ltb page 6 then row_buf bm x w (page * 8 - 9) 128 0 else replicate 128 0)
unfolding draw_bitmap
drawn page selected x w bm held h =
    let (s, e) = held_after-append page selected held clear_display (draw_rows bm x 16 w 32 0) in
    e
    ∙ ap (λ (l : List ℕ). held_after page s l (draw_rows bm x 16 w 32 0))
        (cleared page selected held h)
    ∙ elim (Bool-cases (leb 2 page && ltb page 6)) [
      | inl i ↦ rw i (
          draw_rows_last page s x 16 w 32 0 (page * 8 - 9) bm (replicate 128 0) h (ground arith)
            (omega arith) (ground arith))
      | inr o ↦ rw o (draw_rows_beside page s x 16 w 32 0 bm (replicate 128 0) (ground arith) h)
    ]

-- A face with a bitmap, set on a display that counts as working: each page from 2 to 5 then holds
-- the last of the eight rows of the bitmap that belong to it, and the other pages are clear. The
-- other rows are overwritten.
pub four_rows_remain :
    (e page selected : ℕ) (bm : Memory) (held : List ℕ) (f : FaceState)
    → f.display_ok ≡ true
    → e < 7
    → f.bitmaps e ≡ some bm
    → page < 8
    → held_after page selected held (face_set_expression e f).1
      ≡ (if leb 2 page && ltb page 6 then face_row bm (page * 8 - 9) else replicate 128 0)
unfolding face_set_expression
four_rows_remain e page selected bm held f ok u b h =
    rw (ok, leb_of_lt 7 e u, b)
      (drawn page selected 48 32 bm held h
        ∙ ap (λ (l : List ℕ). if leb 2 page && ltb page 6 then l else replicate 128 0)
            (row_buf-face_row bm (page * 8 - 9)))
