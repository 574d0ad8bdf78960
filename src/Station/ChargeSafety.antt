-- ===== src/Station/ChargeSafety.antt =====
-- When the charging station's output is on, and what its single converter channel makes of that.
use companion_robot.Base.{
  ◌<◌, ◌≡◌, Bool, true, false, ◌&&◌, ltb, List, [], ◌∷◌, arith, not, sub32, add32,
}
use companion_robot.Station.ChargeCtl.{
  CtlState, idle, docked, charging, fault, ChargeCtl, Sample, charge_ctl_init, charge_ctl_tick,
}

abbrev pub is_charging : CtlState → Bool
is_charging charging = true
is_charging _ = false

abbrev pub is_idle : CtlState → Bool
is_idle idle = true
is_idle _ = false

-- The output is on exactly while charging, and a robot is docked exactly outside the idle state.
pub record IsSafe (c : ChargeCtl) : Type 0 where
  pub gated : c.output ≡ is_charging c.state
  pub occupied : c.is_docked ≡ not (is_idle c.state)

pub charge_ctl_init-IsSafe : IsSafe charge_ctl_init
unfolding charge_ctl_init
charge_ctl_init-IsSafe = ground arith

pub charge_ctl_tick-IsSafe : (c : ChargeCtl) (s : Sample) → IsSafe c → IsSafe (charge_ctl_tick c s)
unfolding charge_ctl_tick
charge_ctl_tick-IsSafe c s h = ground arith

unfoldable pub run_ticks : ChargeCtl → List Sample → ChargeCtl
run_ticks c [] = c
run_ticks c (s ∷ ss) = run_ticks (charge_ctl_tick c s) ss

run_ticks-IsSafe : (ss : List Sample) (c : ChargeCtl) → IsSafe c → IsSafe (run_ticks c ss)
unfolding run_ticks
run_ticks-IsSafe [] c h = h
run_ticks-IsSafe (s ∷ ss) c h =
    run_ticks-IsSafe ss (charge_ctl_tick c s) (charge_ctl_tick-IsSafe c s h)

-- After any number of ticks from start-up the output is on exactly in the charging state, and the
-- docked flag is set exactly outside the idle state.
charge_ctl-IsSafe : (ss : List Sample) → IsSafe (run_ticks charge_ctl_init ss)
charge_ctl-IsSafe ss = run_ticks-IsSafe ss charge_ctl_init charge_ctl_init-IsSafe

abbrev pub is_docked_state : CtlState → Bool
is_docked_state docked = true
is_docked_state _ = false

abbrev pub is_fault : CtlState → Bool
is_fault fault = true
is_fault _ = false

-- Whether a sample of more than 370 mV, 2.0 A, interrupts the charging.
abbrev pub trips : ChargeCtl → Sample → Bool
trips c s = is_charging c.state && ltb 370 s.i_mv

-- Voltage and current are converted from the same channel. If the two conversions of a tick agree,
-- above the docking threshold, charging ends in a fault at the first tick after it began: from the
-- idle state, three ticks at millivolts above 500, the second later than the precharge delay.
pub same_channel_faults :
    (c : ChargeCtl) (a b d : Sample)
    → c.state ≡ idle
    → c.is_docked ≡ false
    → 500 < a.v_mv
    → 500 < sub32 b.now_ms a.now_ms
    → 500 < d.v_mv
    → d.i_mv ≡ d.v_mv
    → let c' = run_ticks c (a ∷ b ∷ d ∷ []) in
      (c'.state ≡ fault) × (c'.fault_count ≡ add32 c.fault_count 1)
unfolding run_ticks charge_ctl_tick
same_channel_faults c a b d e u va late vd same = ground arith
