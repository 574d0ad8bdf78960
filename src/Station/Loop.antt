-- ===== src/Station/Loop.antt =====
-- The station's control loop in firmware/charging-station/main/main.c, with the status LED of
-- components/status_indicator and the switch of components/ir_beacon.
use companion_robot.Base.{
  ℕ, ◌%◌, ◌/◌, Bool, true, false, Option, none, some, ◌==◌, if◌then◌else◌, add32, bit_xor,
}
use companion_robot.Station.ChargeCtl.{
  CtlState, idle, docked, charging, complete, fault, ChargeCtl, Sample, charge_ctl_tick,
}

-- `indicator_state_t`.
pub data IndicatorState : Type 0 where
  status_idle status_charging status_complete status_fault status_connecting : IndicatorState

-- `wifi_state_t` of the reporter.
pub data WifiState : Type 0 where
  wifi_disconnected wifi_link_up wifi_joined : WifiState

pub record Rgb : Type 0 where
  pub r : ℕ
  pub g : ℕ
  pub b : ℕ

pub record Indicator : Type 0 where
  pub state : IndicatorState
  pub duty : Rgb

colour_of : IndicatorState → Rgb
colour_of status_idle = record { r = 0; g = 128; b = 0 }
colour_of status_charging = record { r = 0; g = 64; b = 255 }
colour_of status_complete = record { r = 0; g = 255; b = 0 }
colour_of status_fault = record { r = 255; g = 30; b = 0 }
colour_of status_connecting = record { r = 255; g = 200; b = 0 }

unfoldable pub status_indicator_set : Indicator → IndicatorState → Indicator
unfolding colour_of
status_indicator_set ind s = record { state = s; duty = colour_of s }

-- `ir_beacon_t`: the flag that `ir_beacon_start` and `ir_beacon_stop` switch.
pub record Beacon : Type 0 where
  pub station_id : ℕ
  pub active : Bool

unfoldable pub ir_beacon_start : Beacon → Beacon
ir_beacon_start b = if b.active then b else record b { active = true }

unfoldable pub ir_beacon_stop : Beacon → Beacon
ir_beacon_stop b = if b.active then record b { active = false } else b

-- `reporter_event_t`; voltage and current as the millivolts that they are computed from.
pub record Report : Type 0 where
  pub station_id : ℕ
  pub charge_state : CtlState
  pub v_mv : ℕ
  pub i_mv : ℕ
  pub uptime_s : ℕ

pub record Station : Type 0 where
  pub charge : ChargeCtl
  pub indicator : Indicator
  pub beacon : Beacon
  pub loop_count : ℕ

show_state : CtlState → Bool → Indicator → Indicator
unfolding status_indicator_set
show_state idle joined ind =
    status_indicator_set ind (if joined then status_idle else status_connecting)
show_state docked joined ind = status_indicator_set ind status_charging
show_state charging joined ind = status_indicator_set ind status_charging
show_state fault joined ind = status_indicator_set ind status_fault
show_state complete joined ind = ind

switch_beacon : CtlState → Beacon → Beacon
unfolding ir_beacon_start ir_beacon_stop
switch_beacon charging b = ir_beacon_stop b
switch_beacon complete b = ir_beacon_stop b
switch_beacon _ b = ir_beacon_start b

abbrev pub is_joined : WifiState → Bool
is_joined wifi_joined = true
is_joined _ = false

-- One round of the main loop: the station after it, and the report sent to the queue if any.
unfoldable pub loop_round : Station → WifiState → Sample → ℕ → Station × Option Report
unfolding show_state switch_beacon
loop_round st wifi sample uptime_s =
    let c = charge_ctl_tick st.charge sample in
    let count = add32 st.loop_count 1 in
    let report : Report = record {
      station_id = 1;
      charge_state = c.state;
      v_mv = c.v_mv;
      i_mv = c.i_mv;
      uptime_s = uptime_s;
    } in
    (
      record {
        charge = c;
        indicator = show_state c.state (is_joined wifi) st.indicator;
        beacon = switch_beacon c.state st.beacon;
        loop_count = count;
      },
      if count % 50 == 0 then some report else none,
    )

-- `beacon_checksum`: the exclusive or of the identifier's two digits.
unfoldable pub beacon_checksum : ℕ → ℕ
beacon_checksum station_id = bit_xor (station_id / 16 % 16) (station_id % 16) % 16

-- The durations of the two symbols of a bit, in microseconds: burst, then gap.
unfoldable pub ir_beacon_encode_bit : Bool → ℕ × ℕ
ir_beacon_encode_bit true = (600, 400)
ir_beacon_encode_bit false = (300, 700)
