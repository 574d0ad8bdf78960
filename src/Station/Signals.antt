-- ===== src/Station/Signals.antt =====
-- What the station shows and sends after each round of its loop.
use companion_robot.Base.{
  Option, refl, add32, ◌==◌, ◌⊎◌, inl, inr, none, Bool-cases, ℕ, ◌%◌, ◌≡◌, Bool, true, false, some,
  arith, not, if◌then◌else◌,
}
use companion_robot.Station.ChargeCtl.{
  charge_ctl_tick, CtlState, idle, docked, charging, complete, fault, Sample,
}
use companion_robot.Station.ChargeSafety.{IsSafe, charge_ctl_tick-IsSafe}
use companion_robot.Station.Loop.{
  IndicatorState, status_idle, status_charging, status_fault, status_connecting, WifiState, Report,
  Station, is_joined, loop_round,
}

-- The LED state that stands for a charge state; complete is left to the blink task.
abbrev pub shown_for : CtlState → Bool → IndicatorState → IndicatorState
shown_for idle joined old = if joined then status_idle else status_connecting
shown_for docked joined old = status_charging
shown_for charging joined old = status_charging
shown_for complete joined old = old
shown_for fault joined old = status_fault

abbrev pub is_supplied : CtlState → Bool
is_supplied charging = true
is_supplied complete = true
is_supplied _ = false

==_sound : (a b : ℕ) → (a == b) ≡ true → a ≡ b
==_sound a b h = ground arith

reported :
    (n : ℕ) (p : Report)
    → let r : Option Report = if n % 50 == 0 then some p else none in
      (r ≡ none) ⊎ ((q : Report) × (r ≡ some q) × (q.charge_state ≡ p.charge_state) × (n % 50 ≡ 0))
reported n p = elim (Bool-cases (n % 50 == 0)) [
  | inl e ↦ rw e (inr (p, refl, refl, ==_sound (n % 50) 0 e))
  | inr e ↦ rw e (inl refl)
]

-- From a safe charge controller, after every round the beacon is on exactly if the controller is
-- neither charging nor complete, the LED shows the state of the controller (as before if it is
-- complete), and a report, if one is sent, carries that state and comes at a multiple of fifty
-- rounds; the output and the beacon are not both on.
loop_round_signals :
    (st : Station) (wifi : WifiState) (sample : Sample) (up : ℕ)
    → IsSafe st.charge
    → let r = loop_round st wifi sample up in
      (r.0.beacon.active ≡ not (is_supplied r.0.charge.state))
      × (r.0.indicator.state ≡ shown_for r.0.charge.state (is_joined wifi) st.indicator.state)
      × ((r.0.charge.output ≡ false) ⊎ (r.0.beacon.active ≡ false))
      × ((r.1 ≡ none)
          ⊎ ((p : Report) × (r.1 ≡ some p)
              × (p.charge_state ≡ r.0.charge.state)
              × (r.0.loop_count % 50 ≡ 0)))
unfolding loop_round
loop_round_signals st wifi sample up h =
    let safe = charge_ctl_tick-IsSafe st.charge sample h in
    (
      ground arith,
      ground arith,
      ground (arith, safe.gated),
      reported (add32 st.loop_count 1) (record {
        station_id = 1;
        charge_state = (charge_ctl_tick st.charge sample).state;
        v_mv = (charge_ctl_tick st.charge sample).v_mv;
        i_mv = (charge_ctl_tick st.charge sample).i_mv;
        uptime_s = up;
      }),
    )
