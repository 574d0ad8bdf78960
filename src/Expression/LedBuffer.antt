-- ===== src/Expression/LedBuffer.antt =====
-- What the lights show: firmware/components/expression/led.c.
use companion_robot.Base.{
  ℕ, zero, suc, ◌+◌, ◌*◌, ◌<◌, ◌≤◌, ◌≡◌, refl, ap, ◌∙◌, ◌⊎◌, inl, inr, true, ◌==◌, List, arith,
  lt_or_le, if◌then◌else◌, sub32,
}
use companion_robot.Base.Bytes.{Memory, store}
use companion_robot.Base.Float.{FloatOps}
use companion_robot.Expression.Led.{
  Color, Lights, rgb_to_grb, for_leds, knight_color, knight_pos, knight_steps, knight_rider, paint,
  update_pattern, led_round, transmit_leds, led_set_solid, Symbol, encode_bits, encode_byte,
  bytes_cfg,
}

-- The colour that the three bytes of a light stand for: they are in the order green, red, blue.
abbrev pub pixel : Memory → ℕ → Color
pixel m i = record { r = m (i * 3 + 1); g = m (i * 3 + 0); b = m (i * 3 + 2) }

pixel-rgb_to_grb :
    (c : Color) (i j : ℕ) (m : Memory)
    → pixel (rgb_to_grb c i m) j ≡ (if i == j then c else pixel m j)
unfolding rgb_to_grb store
pixel-rgb_to_grb c i j m = ground arith

-- A light before the range of the loop keeps its colour.
for_leds_before :
    (n i j : ℕ) (color : ℕ → Color) (m : Memory)
    → j < i
    → pixel (for_leds i n color m) j ≡ pixel m j
unfolding for_leds
for_leds_before zero i j color m h = refl
for_leds_before (suc n) i j color m h =
    for_leds_before n (suc i) j color (rgb_to_grb (color i) i m) (omega arith)
    ∙ ground (arith, pixel-rgb_to_grb (color i) i j m)

pub for_leds_lem :
    (n i j : ℕ) (color : ℕ → Color) (m : Memory)
    → i ≤ j
    → j < i + n
    → pixel (for_leds i n color m) j ≡ color j
unfolding for_leds
for_leds_lem zero i j color m h k = absurd (omega arith)
for_leds_lem (suc n) i j color m h k = elim (lt_or_le i j) [
  | inl more ↦ for_leds_lem n (suc i) j color (rgb_to_grb (color i) i m) (omega arith) (omega arith)
  | inr last ↦
      for_leds_before n (suc i) j color (rgb_to_grb (color i) i m) (omega arith)
      ∙ ground (arith, pixel-rgb_to_grb (color i) i j m)
]

-- A solid colour is what all eight lights show, if the channel works, and the task leaves it alone:
-- its rounds change nothing until the next pattern.
solid_stays :
    {F : Type 0} (fl : FloatOps F) (c : Color) (s : Lights) (now : ℕ) (random : ℕ → ℕ) (i : ℕ)
    → s.rmt_ok ≡ true
    → i < 8
    → (pixel (led_set_solid c s).shown i ≡ c)
      × (led_round fl now random (led_set_solid c s) ≡ led_set_solid c s)
unfolding led_set_solid transmit_leds led_round
solid_stays fl c s now random i ok h =
    (simp ok (for_leds_lem 8 0 i (λ _. c) s.led_buf (omega arith) h), simp ok refl)

knight_pos_lt : (n : ℕ) → knight_pos n < 8
unfolding knight_pos
knight_pos_lt n = ground arith

-- The position of the knight rider stays on the eight lights, and each step moves it to a
-- neighbouring light.
knight_sweeps :
    (n : ℕ)
    → (knight_pos n < 8)
      × ((knight_pos (n + 1) ≡ knight_pos n + 1) ⊎ (knight_pos n ≡ knight_pos (n + 1) + 1))
unfolding knight_pos
knight_sweeps n = ground arith

-- A round of the knight rider, over a working channel. One light shows the full colour, its
-- neighbours a third of it, and the others are dark.
knight_round :
    {F : Type 0} (fl : FloatOps F) (s : Lights) (now : ℕ) (random : ℕ → ℕ)
    → s.rmt_ok ≡ true
    → s.pattern_active ≡ true
    → s.pattern.mode ≡ knight_rider
    → (pos : ℕ) × (pos < 8)
      × ((i : ℕ)
          → i < 8
          → pixel (led_round fl now random s).shown i ≡ knight_color s.pattern.color pos i)
unfolding led_round update_pattern transmit_leds paint
knight_round fl s now random ok a k =
    let pos = knight_pos (knight_steps fl (sub32 now s.pattern_start_ms) s.pattern) in
    (
      pos,
      knight_pos_lt (knight_steps fl (sub32 now s.pattern_start_ms) s.pattern),
      λ i h.
          simp (a, k, ok)
            (for_leds_lem 8 0 i (knight_color s.pattern.color pos) s.led_buf (omega arith) h),
    )

encode_bits_blind :
    (n byte byte' encoded dest_size : ℕ)
    → encode_bits n byte encoded dest_size ≡ encode_bits n byte' encoded dest_size
unfolding encode_bits
encode_bits_blind zero byte byte' encoded dest_size = refl
encode_bits_blind (suc n) byte byte' encoded dest_size =
    ground (arith, encode_bits_blind n byte byte' (encoded + 1) dest_size)

-- All four durations of a symbol round to 0 ticks, so the symbols of a byte do not depend on the
-- byte: whatever is shown, the same pulses are sent. The encoder that `led_init` sets up has the
-- same symbol for both bits.
encode_byte_blind :
    (src src' : Memory) (dest_size src_offset : ℕ)
    → (encode_byte src dest_size src_offset ≡ encode_byte src' dest_size src_offset)
      × (bytes_cfg.bit0 ≡ bytes_cfg.bit1)
unfolding encode_byte
encode_byte_blind src src' dest_size src_offset = (
  ap (λ (x : ℕ × List Symbol). (x, src_offset + 1))
      (encode_bits_blind 8 (src src_offset) (src' src_offset) 0 dest_size),
  refl,
)
