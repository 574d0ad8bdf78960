-- ===== src/Examples/Powering.antt =====
-- Power manager, battery, dock and charging station on concrete inputs.
use companion_robot.Base.{
  add32, List, ℕ, ◌≡◌, ◌≢◌, ◌⊎◌, refl, true, false, none, some, [], ◌∷◌, arith,
}
use companion_robot.Power.Battery.{Battery, GaugeReads, FlagsAgree}
use companion_robot.Power.Charging.{not_connected, Charger, DockInputs}
use companion_robot.Power.Manager.{
  settle, escalate, detect_activity, is_idle, fault, PowerMgr, RtcData, PollInputs, awake,
  power_mgr_init, poll, run_polls,
}
use companion_robot.Power.States.{policy, BitsAgree, poll-policy}
use companion_robot.Power.Sleep.{OnTime, deep_sleep_unreachable}
use companion_robot.Station.ChargeCtl.{
  CtlState, idle, charging, complete, ChargeCtl, Sample, charge_ctl_init,
}
use companion_robot.Station.ChargeSafety.{IsSafe, run_ticks, same_channel_faults}
use companion_robot.Station.Loop.{status_idle, Station, wifi_joined}
use companion_robot.Station.Start.{station_start, station-IsSafe}
use companion_robot.Station.Blink.{
  green, Lamp, StationStep, main_round, blink_round, run_station, blinks, light_blinks,
}

abbrev a_battery : ℕ → Battery
a_battery soc = record {
  gauge_ok = true;
  vcell = 3700;
  crate = 0;
  soc_pct = soc;
  low = false;
  critical = false;
  timestamp_ms = 0;
}

half_agrees : FlagsAgree (a_battery 50)
half_agrees = record { low_agrees = refl; critical_agrees = refl }

abbrev some_reads : GaugeReads
some_reads = record { vcell_buf = none; soc_buf = some (15, 0); crate_buf = none }

abbrev arriving : Charger
arriving = record { state = not_connected; uart_ok = true }

abbrev on_dock : DockInputs
on_dock = record { level = 0; response = some 0xaa }

abbrev rtc : RtcData
rtc = record { magic = 0xb007; boot_count = 3; last_soc = 40; total_sleep_ms = 5000 }

abbrev quiet_poll : ℕ → PollInputs
quiet_poll t = record {
  bat = a_battery 50;
  docked = false;
  pending_msgs = 0;
  now = t;
  light_sleep_ok = true;
  woke = t;
}

abbrev started : PowerMgr
started = power_mgr_init rtc (a_battery 50) false 100

poll_awake : poll started (quiet_poll 1000) ≡ awake (settle started (quiet_poll 1000) 1000)
unfolding poll power_mgr_init escalate detect_activity is_idle
poll_awake = refl

runs_awake :
    run_polls started (quiet_poll 1000 ∷ []) ≡ awake (settle started (quiet_poll 1000) 1000)
unfolding run_polls
runs_awake = rw (poll_awake, run_polls) refl

started_normal : started.state ≢ fault
unfolding power_mgr_init
started_normal = λ e. ground arith

poll-policy_example :
    let s' = settle started (quiet_poll 1000) 1000 in (s'.state ≡ policy false 50) × BitsAgree s'
poll-policy_example = poll-policy started (quiet_poll 1000) half_agrees started_normal poll_awake

on_time : OnTime 100 (quiet_poll 1000 ∷ quiet_poll 1800000 ∷ [])
on_time = ground arith

deep_sleep_unreachable_example :
    (s : PowerMgr) × (run_polls
        (power_mgr_init rtc (a_battery 50) false 100)
        (quiet_poll 1000 ∷ quiet_poll 1800000 ∷ [])
      ≡ awake s)
deep_sleep_unreachable_example =
    deep_sleep_unreachable rtc (a_battery 50) false 100 (quiet_poll 1000 ∷ quiet_poll 1800000 ∷ [])
      (omega arith) on_time

abbrev contact : ℕ → ℕ → Sample
contact mv t = record { v_mv = mv; i_mv = mv; now_ms = t }

-- Charging, and a sample of 2.16 A.
abbrev on_charge : ChargeCtl
on_charge = record charge_ctl_init { state = charging; is_docked = true; output = true }

abbrev too_much : Sample
too_much = record { v_mv = 600; i_mv = 400; now_ms = 10 }

init_idle : (charge_ctl_init.state ≡ idle) × (charge_ctl_init.is_docked ≡ false)
unfolding charge_ctl_init
init_idle = (refl, refl)

abbrev shared_channel : ChargeCtl
shared_channel = run_ticks charge_ctl_init (contact 600 10 ∷ contact 600 600 ∷ contact 600 650 ∷ [])

same_channel_faults_example :
    (shared_channel.state ≡ CtlState.fault)
    × (shared_channel.fault_count ≡ add32 charge_ctl_init.fault_count 1)
same_channel_faults_example =
    same_channel_faults charge_ctl_init (contact 600 10) (contact 600 600) (contact 600 650)
      init_idle.0 init_idle.1 (omega arith) (omega arith) (omega arith) refl

abbrev a_station : Station
a_station = record {
  charge = charge_ctl_init;
  indicator = record { state = status_idle; duty = record { r = 0; g = 0; b = 0 } };
  beacon = record { station_id = 1; active = false };
  loop_count = 49;
}

abbrev full_station : Lamp
full_station = record {
  station = record a_station {
    charge = record charge_ctl_init { state = complete; is_docked = true };
  };
  blink_on = false;
}

light_blinks_example :
    let rounds = main_round wifi_joined (contact 400 10) 1 ∷ blink_round ∷ [] in
    let l = run_station (blink_round ∷ rounds) full_station in
    (l.station.charge.state ≡ complete)
    × (l.blink_on ≡ blinks rounds true)
    × (l.station.indicator.duty ≡ green (blinks rounds true))
light_blinks_example =
    light_blinks (main_round wifi_joined (contact 400 10) 1 ∷ blink_round ∷ []) full_station refl
      (omega arith, (tt, tt))

-- A dock, half a second, and a charge.
abbrev docking : List StationStep
docking =
    main_round wifi_joined (contact 600 10) 0
    ∷ blink_round
    ∷ main_round wifi_joined (contact 600 900) 1
    ∷ []

station-IsSafe_example :
    let st = (run_station docking station_start).station in
    IsSafe st.charge × ((st.charge.output ≡ false) ⊎ (st.beacon.active ≡ false))
station-IsSafe_example = station-IsSafe docking
