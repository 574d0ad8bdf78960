-- ===== src/Expression/Face.antt =====
-- The face display: firmware/components/expression/face.c. What goes over the bus is recorded, as
-- writes that succeed; the allocation of their buffers succeeds too.
use companion_robot.Base.{
  ℕ, zero, suc, ◌+◌, ◌-◌, ◌*◌, ◌/◌, ◌%◌, Bool, true, false, not, ◌&&◌, Option, none, some, List, [],
  ◌∷◌, ◌++◌, get_or, replicate, ltb, leb, ◌==◌, if◌then◌else◌, sub32,
}
use companion_robot.Base.Bytes.{Memory, load_bytes}

abbrev pub ssd1306_width : ℕ
ssd1306_width = 128

abbrev pub ssd1306_pages : ℕ
ssd1306_pages = 64 / 8

abbrev pub bm_bytes : ℕ
bm_bytes = 32 * 32 / 8

-- `ssd1306_write_cmd` and `ssd1306_write_data`.
pub data FaceAct : Type 0 where
  write_cmd : (cmd : ℕ) → FaceAct
  write_data : (data_bytes : List ℕ) → FaceAct

-- The initializer of `FACE_NEUTRAL`.
abbrev pub face_neutral_initializer : List ℕ
face_neutral_initializer =
    0x00 ∷ 0x00 ∷ 0x00 ∷ 0x00 ∷ 0x00 ∷ 0x00 ∷ 0x00 ∷ 0x00 ∷ 0x00 ∷ 0x07 ∷ 0xC0 ∷ 0x00 ∷ 0x00 ∷ 0x03
    ∷ 0xE0 ∷ 0x00 ∷ 0x00 ∷ 0x1F ∷ 0xF0 ∷ 0x00 ∷ 0x00 ∷ 0x0F ∷ 0xF8 ∷ 0x00 ∷ 0x00 ∷ 0x3F ∷ 0xF8
    ∷ 0x00 ∷ 0x00 ∷ 0x1F ∷ 0xFC ∷ 0x00 ∷ 0x00 ∷ 0x7F ∷ 0xFC ∷ 0x00 ∷ 0x00 ∷ 0x3F ∷ 0xFE ∷ 0x00
    ∷ 0x00 ∷ 0x7F ∷ 0xFC ∷ 0x00 ∷ 0x00 ∷ 0x3F ∷ 0xFE ∷ 0x00 ∷ 0x00 ∷ 0x7F ∷ 0xFC ∷ 0x00 ∷ 0x00
    ∷ 0x3F ∷ 0xFE ∷ 0x00 ∷ 0x00 ∷ 0x3F ∷ 0xF8 ∷ 0x00 ∷ 0x00 ∷ 0x1F ∷ 0xFC ∷ 0x00 ∷ 0x00 ∷ 0x1F
    ∷ 0xF0 ∷ 0x00 ∷ 0x00 ∷ 0x0F ∷ 0xF8 ∷ 0x00 ∷ 0x00 ∷ 0x07 ∷ 0xC0 ∷ 0x00 ∷ 0x00 ∷ 0x03 ∷ 0xE0
    ∷ 0x00 ∷ 0x00 ∷ 0x00 ∷ 0x00 ∷ 0x00 ∷ 0x00 ∷ 0x00 ∷ 0x00 ∷ 0x00 ∷ 0x00 ∷ 0x00 ∷ 0x00 ∷ 0x00
    ∷ 0x00 ∷ 0x00 ∷ 0x00 ∷ 0x00 ∷ 0x00 ∷ 0x00 ∷ 0x00 ∷ 0x00 ∷ 0x00 ∷ 0x00 ∷ 0x00 ∷ 0x00 ∷ 0x00
    ∷ 0x00 ∷ 0x00 ∷ 0x00 ∷ 0x00 ∷ 0x00 ∷ 0x00 ∷ 0x00 ∷ 0x00 ∷ 0x00 ∷ 0x00 ∷ 0x00 ∷ 0x00 ∷ 0x00
    ∷ 0x00 ∷ 0x00 ∷ 0x00 ∷ 0x00 ∷ 0x00 ∷ 0x00 ∷ 0x07 ∷ 0xFF ∷ 0xFF ∷ 0xC0 ∷ 0x07 ∷ 0xFF ∷ 0xFF
    ∷ 0xC0 ∷ 0x00 ∷ 0x00 ∷ 0x00 ∷ 0x00 ∷ 0x00 ∷ 0x00 ∷ 0x00 ∷ 0x00 ∷ 0x00 ∷ 0x00 ∷ 0x00 ∷ 0x00
    ∷ 0x00 ∷ 0x00 ∷ 0x00 ∷ 0x00 ∷ 0x00 ∷ 0x00 ∷ 0x00 ∷ 0x00 ∷ 0x00 ∷ 0x00 ∷ 0x00 ∷ 0x00 ∷ 0x00
    ∷ 0x00 ∷ 0x00 ∷ 0x00 ∷ 0x00 ∷ 0x00 ∷ 0x00 ∷ 0x00 ∷ 0x00 ∷ 0x00 ∷ 0x00 ∷ 0x00 ∷ []

-- `FACE_NEUTRAL`: the initializer has more bytes than the array, which keeps the first ones.
unfoldable pub face_neutral : Memory
face_neutral i = if ltb i bm_bytes then get_or face_neutral_initializer i 0 else 0

-- The commands that select a page and a column.
abbrev pub seek : (page x : ℕ) → List FaceAct
seek page x =
    write_cmd (0xB0 + page) ∷ (write_cmd (x % 16) ∷ (write_cmd (0x10 + (x / 16) % 16) ∷ []))

-- The pages from `page` on, `n` of them, each filled with what `f` gives.
unfoldable pub fill_pages : (f : ℕ → List ℕ) → (n page : ℕ) → List FaceAct
fill_pages f zero page = []
fill_pages f (suc n) page = seek page 0 ++ (write_data (f page) ∷ fill_pages f n (page + 1))

unfoldable pub clear_display : List FaceAct
unfolding fill_pages
clear_display = fill_pages (λ page. replicate ssd1306_width 0) ssd1306_pages 0

-- `row_buf`: the columns from `col` on, `n` of them, of a row of the bitmap that is drawn at `x`.
unfoldable pub row_buf : Memory → (x w row n col : ℕ) → List ℕ
row_buf bitmap x w row zero col = []
row_buf bitmap x w row (suc n) col =
    let drawn = ltb col (w / 8) && ltb (x + col * 8) ssd1306_width in
    (if drawn then bitmap (row * (w / 8) + col) else 0) ∷ row_buf bitmap x w row n (col + 1)

-- The loop of `draw_bitmap` over the rows, from `row` on, `n` of them.
unfoldable pub draw_rows : Memory → (x y w n row : ℕ) → List FaceAct
draw_rows bitmap x y w zero row = []
draw_rows bitmap x y w (suc n) row =
    let page = (y + row) / 8 in
    let rest = draw_rows bitmap x y w n (row + 1) in
    if leb ssd1306_pages page
    then rest
    else seek page x ++ (write_data (row_buf bitmap x w row ssd1306_width 0) ∷ rest)

unfoldable pub draw_bitmap : Memory → (x y w h : ℕ) → List FaceAct
unfolding draw_rows
draw_bitmap bitmap x y w h = draw_rows bitmap x y w h 0

abbrev pub bcp_face_expr_count : ℕ
bcp_face_expr_count = 7

-- The globals; of `FACE_BITMAPS`, the pointers that are not NULL.
pub record FaceState : Type 0 where
  pub display_ok : Bool
  pub current_expr : ℕ
  pub bitmaps : ℕ → Option Memory
  pub last_blink_ms : ℕ
  pub next_blink_ms : ℕ
  pub blinking : Bool

-- As the program starts.
abbrev pub face_start : FaceState
face_start = record {
  display_ok = false;
  current_expr = 0;
  bitmaps = λ e. if e == 0 then some face_neutral else none;
  last_blink_ms = 0;
  next_blink_ms = 0;
  blinking = false;
}

abbrev pub drawing : Option Memory → List FaceAct
drawing none = []
drawing (some bm) = clear_display ++ draw_bitmap bm 48 16 32 32

unfoldable pub face_set_expression : (expr : ℕ) → FaceState → FaceState × List FaceAct
face_set_expression expr f =
    if not f.display_ok
    then (f, [])
    else if leb bcp_face_expr_count expr
    then (f, [])
    else (record f { current_expr = expr }, drawing (f.bitmaps expr))

abbrev pub commands : List ℕ → List FaceAct
commands [] = []
commands (c ∷ cs) = write_cmd c ∷ commands cs

-- "Init sequence (SSD1306 datasheet)".
abbrev pub init_sequence : List FaceAct
init_sequence = commands (
    0xAE ∷ 0xA8 ∷ 0x3F ∷ 0xD3 ∷ 0x00 ∷ 0x40 ∷ 0xA1 ∷ 0xC8 ∷ 0xDA ∷ 0x12 ∷ 0x81 ∷ 0x7F ∷ 0xA4 ∷ 0xA6
    ∷ 0xD5 ∷ 0x80 ∷ 0x8D ∷ 0x14 ∷ 0xAF ∷ [])

-- "Generate expression variants": the happy face is a copy of the neutral one, and the confused
-- one has no bitmap.
abbrev pub variants : ℕ → Option Memory
variants e = if e == 5 then none else if ltb e bcp_face_expr_count then some face_neutral else none

-- `face_init`: whether the display answers, the time, and a random number.
unfoldable pub face_init : (found : Bool) → (now random : ℕ) → FaceState → FaceState × List FaceAct
face_init false now random f = (record f { display_ok = false }, [])
face_init true now random f =
    let (g, shown) = face_set_expression 0 (record f { bitmaps = variants }) in
    (
      record g { display_ok = true; last_blink_ms = now; next_blink_ms = 2000 + random % 4000 },
      init_sequence ++ (clear_display ++ shown),
    )

unfoldable pub face_set_custom : Memory → (len : ℕ) → FaceState → List FaceAct
face_set_custom bitmap len f =
    let w = if ltb 128 len then 128 else len in
    if not f.display_ok
    then []
    else clear_display
      ++ (if len == 1024
          then fill_pages (λ page. load_bytes (page * ssd1306_width) ssd1306_width bitmap)
              ssd1306_pages 0
          else draw_bitmap bitmap ((ssd1306_width - w) / 2) 16 w 32)

unfoldable pub face_off : FaceState → List FaceAct
face_off f = if f.display_ok then write_cmd 0xAE ∷ [] else []

-- "Start blink".
unfoldable pub start_blink : (now : ℕ) → FaceState → FaceState
start_blink now f =
    if not f.blinking && ltb f.next_blink_ms (sub32 now f.last_blink_ms)
    then record f { blinking = true; last_blink_ms = now }
    else f

unfoldable pub face_blink_tick : (now random : ℕ) → FaceState → FaceState × List FaceAct
face_blink_tick now random f =
    let g = start_blink now f in
    let open_eyes : FaceState = record g {
      blinking = false;
      last_blink_ms = now;
      next_blink_ms = 2000 + random % 4000;
    } in
    if not f.display_ok
    then (f, [])
    else if g.blinking && ltb 150 (sub32 now g.last_blink_ms)
    then face_set_expression g.current_expr open_eyes
    else (g, [])
