-- ===== src/Station/IrEncoder.antt =====
-- The infrared encoder: firmware/charging-station/components/ir_beacon/ir_beacon.c. What the copy
-- encoder of the platform answers is an input.
use companion_robot.Base.{
  ℕ, ◌-◌, ◌/◌, ◌≡◌, refl, Bool, true, false, List, [], ◌∷◌, ◌==◌, if◌then◌else◌,
}

-- `rmt_symbol_word_t`.
pub record IrSymbol : Type 0 where
  pub duration0 : ℕ
  pub level0 : ℕ
  pub duration1 : ℕ
  pub level1 : ℕ

-- `ir_rmt_encoder_t`, without its function pointers; its state is 0 for a burst and 1 for a gap.
pub record IrEncoder : Type 0 where
  pub burst_symbol : IrSymbol
  pub gap_symbol : IrSymbol
  pub burst_ticks : ℕ
  pub gap_ticks : ℕ
  pub state : ℕ

unfoldable pub ir_encoder_create : (burst_us gap_us : ℕ) → IrEncoder
ir_encoder_create burst_us gap_us =
    let period_ticks = 1000000 / 38000 in
    let high_ticks = period_ticks / 2 in
    record {
      burst_symbol = record {
        duration0 = high_ticks;
        level0 = 1;
        duration1 = period_ticks - high_ticks;
        level1 = 0;
      };
      gap_symbol = record { duration0 = 0; level0 = 0; duration1 = 0; level1 = 0 };
      burst_ticks = burst_us;
      gap_ticks = gap_us;
      state = 0;
    }

-- `ir_encoder_encode`: the symbol handed to the copy encoder, none in another state; `complete` is
-- whether the copy encoder reports RMT_ENCODING_COMPLETE.
unfoldable pub ir_encoder_encode : (complete : Bool) → IrEncoder → IrEncoder × List IrSymbol
ir_encoder_encode complete ir =
    if ir.state == 0
    then (if complete then record ir { state = 1 } else ir, ir.burst_symbol ∷ [])
    else if ir.state == 1
    then (if complete then record ir { state = 0 } else ir, ir.gap_symbol ∷ [])
    else (ir, [])

unfoldable pub ir_encoder_reset : IrEncoder → IrEncoder
ir_encoder_reset ir = record ir { state = 0 }

-- The symbol that an encoder in a state is due to hand on.
abbrev due : IrEncoder → IrSymbol
due ir = if ir.state == 0 then ir.burst_symbol else ir.gap_symbol

-- A new encoder repeats the burst while the copy encoder is not complete, is due the gap once it
-- is, and after the gap is as if it were reset.
full_memory_repeats :
    (burst_us gap_us : ℕ)
    → let ir = ir_encoder_create burst_us gap_us in
      let again = (ir_encoder_encode false ir).0 in
      let after = (ir_encoder_encode true again).0 in
      (due again ≡ ir.burst_symbol)
      × (due after ≡ ir.gap_symbol)
      × ((ir_encoder_encode true after).0 ≡ ir_encoder_reset after)
unfolding ir_encoder_create ir_encoder_encode ir_encoder_reset
full_memory_repeats burst_us gap_us = (refl, refl, refl)
