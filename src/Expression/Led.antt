-- ===== src/Expression/Led.antt =====
-- The lights: firmware/components/expression/led.c. A `float` is a parameter, with its operations.
use companion_robot.Base.{
  ℕ, zero, suc, ◌+◌, ◌-◌, ◌*◌, ◌/◌, ◌%◌, ◌^◌, Bool, true, false, ◌||◌, List, [], ◌∷◌, leb, ◌==◌,
  if◌then◌else◌, sub32,
}
use Prim.Native.Nat.{bit_and}
use companion_robot.Base.Bytes.{Memory, zeroed, store}
use companion_robot.Base.Float.{FloatOps}

abbrev pub led_count : ℕ
led_count = 8

abbrev pub rmt_resolution_hz : ℕ
rmt_resolution_hz = 80000000

-- The durations of a symbol's halves, in ticks: the divisions are those of integers.
abbrev pub t0h_ticks : ℕ
t0h_ticks = (rmt_resolution_hz / 1000000000) * 350 / 1000

abbrev pub t0l_ticks : ℕ
t0l_ticks = (rmt_resolution_hz / 1000000000) * 900 / 1000

abbrev pub t1h_ticks : ℕ
t1h_ticks = (rmt_resolution_hz / 1000000000) * 900 / 1000

abbrev pub t1l_ticks : ℕ
t1l_ticks = (rmt_resolution_hz / 1000000000) * 350 / 1000

-- `rmt_symbol_word_t`.
pub record Symbol : Type 0 where
  pub duration0 : ℕ
  pub duration1 : ℕ

-- The loop of `encode_byte` over the bits, the highest first; `none_left` is "buffer full".
unfoldable pub encode_bits : (n byte encoded dest_size : ℕ) → ℕ × List Symbol
encode_bits zero byte encoded dest_size = (encoded, [])
encode_bits (suc n) byte encoded dest_size =
    let rest = encode_bits n byte (encoded + 1) dest_size in
    let symbol =
      if ((byte / 2 ^ n) % 2) == 1
      then record { duration0 = t1h_ticks; duration1 = t1l_ticks }
      else record { duration0 = t0h_ticks; duration1 = t0l_ticks } in
    if leb dest_size (encoded * 4) then (0, []) else (rest.0, symbol ∷ rest.1)

-- `encode_byte`: the symbols encoded, those written and the next offset.
unfoldable pub encode_byte : Memory → (dest_size src_offset : ℕ) → (ℕ × List Symbol) × ℕ
unfolding encode_bits
encode_byte src dest_size src_offset = (encode_bits 8 (src src_offset) 0 dest_size, src_offset + 1)

-- `rmt_bytes_encoder_config_t`, as `led_init` fills it.
pub record BytesConfig : Type 0 where
  pub bit0 : Symbol
  pub bit1 : Symbol

abbrev pub bytes_cfg : BytesConfig
bytes_cfg = record {
  bit0 = record { duration0 = t0h_ticks; duration1 = t0l_ticks };
  bit1 = record { duration0 = t1h_ticks; duration1 = t1l_ticks };
}

-- `led_color_t`.
pub record Color : Type 0 where
  pub r : ℕ
  pub g : ℕ
  pub b : ℕ

-- `bcp_led_mode_t`.
pub data PatternMode : Type 0 where
  solid breathing flow blink rainbow knight_rider party : PatternMode

-- `led_pattern_t`.
pub record Pattern : Type 0 where
  pub mode : PatternMode
  pub speed : ℕ
  pub color : Color

-- The file's globals, `last_switch` of the party pattern among them, and what the lights were last
-- sent.
pub record Lights : Type 0 where
  pub rmt_ok : Bool
  pub led_buf : Memory
  pub pattern : Pattern
  pub pattern_active : Bool
  pub pattern_start_ms : ℕ
  pub last_switch : ℕ
  pub shown : Memory

unfoldable pub rgb_to_grb : Color → ℕ → Memory → Memory
unfolding store
rgb_to_grb c i m = store (i * 3 + 2) c.b (store (i * 3 + 1) c.r (store (i * 3 + 0) c.g m))

-- The loops over the lights, from `i` on.
unfoldable pub for_leds : (i n : ℕ) → (ℕ → Color) → Memory → Memory
for_leds i zero color m = m
for_leds i (suc n) color m = for_leds (suc i) n color (rgb_to_grb (color i) i m)

unfoldable pub transmit_leds : Lights → Lights
transmit_leds s = if s.rmt_ok then record s { shown = s.led_buf } else s

-- The colour of a light in the knight-rider pattern, by the position of the full one.
unfoldable pub knight_color : Color → (pos i : ℕ) → Color
knight_color c pos i =
    if i == pos
    then c
    else if ((i + 1) == pos) || (i == (pos + 1))
    then record { r = c.r / 3; g = c.g / 3; b = c.b / 3 }
    else record { r = 0; g = 0; b = 0 }

-- The position after a number of steps: to the last light and back.
unfoldable pub knight_pos : ℕ → ℕ
knight_pos steps =
    let pos = steps % (led_count * 2 - 2) in
    if leb led_count pos then led_count * 2 - 2 - pos else pos

module _ {F : Type 0} (fl : FloatOps F) where
  unfoldable pub hue_to_rgb : F → Color
  hue_to_rgb h =
      let c = fl.literal 1 1 in
      let x = fl.times c (
        fl.minus (fl.literal 1 1) (
          fl.fabsf (
            fl.minus (fl.fmodf (fl.over h (fl.literal 60 1)) (fl.literal 2 1))
              (fl.literal 1 1)))) in
      let o = fl.of_int 0 in
      let byte : F → ℕ =
        λ v. fl.to_int (fl.times (fl.plus v (fl.literal 0 1)) (fl.literal 255 1)) in
      let below : ℕ → Bool = λ n. fl.less h (fl.of_int n) in
      if below 60
      then record { r = byte c; g = byte x; b = byte o }
      else if below 120
      then record { r = byte x; g = byte c; b = byte o }
      else if below 180
      then record { r = byte o; g = byte c; b = byte x }
      else if below 240
      then record { r = byte o; g = byte x; b = byte c }
      else if below 300
      then record { r = byte x; g = byte o; b = byte c }
      else record { r = byte c; g = byte o; b = byte x }

  -- `g_pattern.speed / 255.0f`.
  abbrev pub speed_of : Pattern → F
  speed_of p = fl.over (fl.of_int p.speed) (fl.literal 255 1)

  unfoldable pub breathing_color : (elapsed : ℕ) → Pattern → Color
  breathing_color elapsed p =
      let seconds = fl.over (fl.of_int elapsed) (fl.literal 1000 1) in
      let rate = fl.plus (speed_of p) (fl.literal 1 2) in
      let phase =
        fl.times (fl.times (fl.times seconds rate) (fl.literal 2 1))
          (fl.literal 314159265 100000000) in
      let brightness = fl.over (fl.plus (fl.sinf phase) (fl.literal 1 1)) (fl.literal 2 1) in
      let br = fl.to_int (fl.times brightness (fl.literal 255 1)) in
      record {
        r = p.color.r * br / 255 % 256;
        g = p.color.g * br / 255 % 256;
        b = p.color.b * br / 255 % 256;
      }

  unfoldable pub blink_color : (elapsed : ℕ) → Pattern → Color
  blink_color elapsed p =
      let period_ms = fl.over (fl.literal 1000 1) (fl.plus (speed_of p) (fl.literal 1 2)) in
      let on =
        fl.less (fl.fmodf (fl.of_int elapsed) (fl.times period_ms (fl.literal 2 1))) period_ms in
      let val = if on then 255 else 0 in
      record { r = bit_and p.color.r val; g = bit_and p.color.g val; b = bit_and p.color.b val }

  unfoldable pub rainbow_color : (elapsed : ℕ) → Pattern → ℕ → Color
  rainbow_color elapsed p i =
      let hue_per_led = fl.over (fl.literal 360 1) (fl.of_int led_count) in
      let hue_offset = fl.times (fl.times (fl.of_int elapsed) (speed_of p)) (fl.literal 5 100) in
      hue_to_rgb
        (fl.fmodf (fl.plus hue_offset (fl.times (fl.of_int i) hue_per_led)) (fl.literal 360 1))

  -- `(int)(elapsed * speed / 50.0f)`.
  unfoldable pub knight_steps : (elapsed : ℕ) → Pattern → ℕ
  knight_steps elapsed p =
      fl.to_int (fl.over (fl.times (fl.of_int elapsed) (speed_of p)) (fl.literal 50 1))

  unfoldable pub party_due : (elapsed last_switch : ℕ) → Pattern → Bool
  party_due elapsed last_switch p =
      fl.less (fl.over (fl.of_int 200) (fl.plus (speed_of p) (fl.of_int 1)))
        (fl.of_int (sub32 elapsed last_switch))

  -- The cases of `update_pattern`; `random` has the results of `esp_random` for each light.
  unfoldable pub paint : PatternMode → (elapsed : ℕ) → (random : ℕ → ℕ) → Lights → Lights
  paint solid elapsed random s = record s {
    led_buf = for_leds 0 led_count (λ _. s.pattern.color) s.led_buf;
  }
  paint breathing elapsed random s = record s {
    led_buf = for_leds 0 led_count (λ _. breathing_color elapsed s.pattern) s.led_buf;
  }
  paint flow elapsed random s = s
  paint blink elapsed random s = record s {
    led_buf = for_leds 0 led_count (λ _. blink_color elapsed s.pattern) s.led_buf;
  }
  paint rainbow elapsed random s = record s {
    led_buf = for_leds 0 led_count (rainbow_color elapsed s.pattern) s.led_buf;
  }
  paint knight_rider elapsed random s =
      let pos = knight_pos (knight_steps elapsed s.pattern) in
      record s { led_buf = for_leds 0 led_count (knight_color s.pattern.color pos) s.led_buf }
  paint party elapsed random s =
      let color : ℕ → Color = λ i. hue_to_rgb (fl.of_int (random i % 360)) in
      if party_due elapsed s.last_switch s.pattern
      then record s { last_switch = elapsed; led_buf = for_leds 0 led_count color s.led_buf }
      else s

  unfoldable pub update_pattern : (now : ℕ) → (random : ℕ → ℕ) → Lights → Lights
  update_pattern now random s =
      if s.pattern_active then paint s.pattern.mode (sub32 now s.pattern_start_ms) random s else s

  -- A round of `task_led`.
  unfoldable pub led_round : (now : ℕ) → (random : ℕ → ℕ) → Lights → Lights
  led_round now random s =
      if s.pattern_active then transmit_leds (update_pattern now random s) else s

-- `led_init`: whether the channel is made and enabled. The buffer and the flag are cleared only if
-- both succeed.
unfoldable pub led_init : (channel_ok enable_ok : Bool) → Lights → Lights
led_init false enable_ok s = record s { rmt_ok = false }
led_init true false s = record s { rmt_ok = false }
led_init true true s = record s { led_buf = zeroed; pattern_active = false; rmt_ok = true }

unfoldable pub led_set_solid : Color → Lights → Lights
led_set_solid c s =
    transmit_leds
      (record s { led_buf = for_leds 0 led_count (λ _. c) s.led_buf; pattern_active = false })

unfoldable pub led_set_pattern : (now : ℕ) → Pattern → Lights → Lights
led_set_pattern now p s = record s { pattern = p; pattern_active = true; pattern_start_ms = now }

unfoldable pub led_off : Lights → Lights
led_off s = transmit_leds (record s { led_buf = zeroed; pattern_active = false })
