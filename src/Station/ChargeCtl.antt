-- ===== src/Station/ChargeCtl.antt =====
-- The charge controller: firmware/charging-station/components/charge_ctl/charge_ctl.c.
-- The floats are quotients of the millivolts at the converter: voltage mv * 2 / 1000 and current
-- mv / 185. A comparison with a float is the comparison of millivolts that has the same outcome.
use companion_robot.Base.{ℕ, Bool, true, false, ◌&&◌, not, ltb, if◌then◌else◌, sub32, add32}

-- `charge_state_t`.
pub data CtlState : Type 0 where
  idle docked charging complete fault : CtlState

-- `charge_ctl_t`: its limits are constants, and `output` is the level of the power-enable pin.
pub record ChargeCtl : Type 0 where
  pub state : CtlState
  pub is_docked : Bool
  pub v_mv : ℕ
  pub i_mv : ℕ
  pub docked_at_ms : ℕ
  pub fault_count : ℕ
  pub output : Bool

-- The two conversions of a tick, in calibrated millivolts, and its time.
pub record Sample : Type 0 where
  pub v_mv : ℕ
  pub i_mv : ℕ
  pub now_ms : ℕ

abbrev pub precharge_ms : ℕ
precharge_ms = 500

-- `v_out > 1.0f`.
abbrev pub contact_made : ℕ → Bool
contact_made mv = ltb 500 mv

-- `v_out < 0.5f`.
abbrev pub contact_open : ℕ → Bool
contact_open mv = ltb mv 250

-- `i_out > i_max`, with the limit 2.0 A.
abbrev pub over_current : ℕ → Bool
over_current mv = ltb 370 mv

-- `i_out < i_threshold_full`, with the threshold 0.1 A, between 18 and 19 mV.
abbrev pub tapered_off : ℕ → Bool
tapered_off mv = ltb mv 19

unfoldable pub charge_ctl_init : ChargeCtl
charge_ctl_init = record {
  state = idle;
  is_docked = false;
  v_mv = 0;
  i_mv = 0;
  docked_at_ms = 0;
  fault_count = 0;
  output = false;
}

unfoldable pub charge_ctl_set_output : ChargeCtl → Bool → ChargeCtl
charge_ctl_set_output c on = record c { output = on }

-- The `case` of each state, after the conversions are stored.
tick_in : CtlState → ChargeCtl → ℕ → ChargeCtl
unfolding charge_ctl_set_output
tick_in idle c now =
    if contact_made c.v_mv && not c.is_docked
    then record c { is_docked = true; docked_at_ms = now; state = docked }
    else c
tick_in docked c now =
    if ltb precharge_ms (sub32 now c.docked_at_ms)
    then record (charge_ctl_set_output c true) { state = charging }
    else c
tick_in charging c now =
    if over_current c.i_mv
    then record (charge_ctl_set_output c false) {
      state = fault;
      fault_count = add32 c.fault_count 1;
    }
    else if tapered_off c.i_mv
    then record (charge_ctl_set_output c false) { state = complete }
    else if contact_open c.v_mv
    then record (charge_ctl_set_output c false) { is_docked = false; state = idle }
    else c
tick_in complete c now =
    if contact_open c.v_mv
    then record (charge_ctl_set_output c false) { is_docked = false; state = idle }
    else c
tick_in fault c now =
    if contact_open c.v_mv then record c { is_docked = false; state = idle } else c

unfoldable pub charge_ctl_tick : ChargeCtl → Sample → ChargeCtl
unfolding tick_in
charge_ctl_tick c s = tick_in c.state (record c { v_mv = s.v_mv; i_mv = s.i_mv }) s.now_ms
