-- ===== src/Station/Start.antt =====
-- The start of the station: `app_main` of firmware/charging-station/main/main.c before its loop,
-- where the set-up of channels and timers succeeds, and what holds from then on.
use companion_robot.Base.{ℕ, ◌≡◌, refl, ◌⊎◌, inl, false, List, [], ◌∷◌, arith}
use companion_robot.Station.ChargeCtl.{
  CtlState, idle, docked, charging, complete, fault, Sample, charge_ctl_init,
}
use companion_robot.Station.ChargeSafety.{IsSafe, charge_ctl_init-IsSafe, charge_ctl_tick-IsSafe}
use companion_robot.Station.Loop.{
  status_connecting, Indicator, status_indicator_set, Beacon, ir_beacon_start, WifiState,
  loop_round,
}
use companion_robot.Station.Blink.{
  Lamp, blink_in, StationStep, main_round, blink_round, station_step, run_station,
}

unfoldable pub ir_beacon_init : (station_id : ℕ) → Beacon
ir_beacon_init station_id = record { station_id = station_id; active = false }

unfoldable pub status_indicator_init : Indicator
status_indicator_init =
    status_indicator_set
      (record { state = status_connecting; duty = record { r = 0; g = 0; b = 0 } })
      status_connecting

-- The globals and the local variables of both tasks as their loops begin.
unfoldable pub station_start : Lamp
station_start = record {
  station = record {
    charge = charge_ctl_init;
    indicator = status_indicator_set status_indicator_init status_connecting;
    beacon = ir_beacon_start (ir_beacon_init 1);
    loop_count = 0;
  };
  blink_on = false;
}

-- A safe charge controller, with the beacon off while it charges.
record IsSound (l : Lamp) : Type 0 where
  safe : IsSafe l.station.charge
  exclusive : (l.station.charge.output ≡ false) ⊎ (l.station.beacon.active ≡ false)

main-IsSound :
    (wifi : WifiState) (sample : Sample) (up : ℕ) (l : Lamp)
    → IsSafe l.station.charge
    → IsSound (station_step (main_round wifi sample up) l)
unfolding station_step loop_round
main-IsSound wifi sample up l h =
    let safe = charge_ctl_tick-IsSafe l.station.charge sample h in
    record { safe = safe; exclusive = ground (arith, safe.gated) }

blink_in-IsSound : (s : CtlState) (l : Lamp) → IsSound l → IsSound (blink_in s l)
unfolding blink_in
blink_in-IsSound idle l h = h
blink_in-IsSound docked l h = h
blink_in-IsSound charging l h = h
blink_in-IsSound complete l h = record { safe = h.safe; exclusive = h.exclusive }
blink_in-IsSound fault l h = record { safe = h.safe; exclusive = h.exclusive }

run-IsSound : (xs : List StationStep) (l : Lamp) → IsSound l → IsSound (run_station xs l)
unfolding run_station station_step
run-IsSound [] l h = h
run-IsSound (main_round wifi sample up ∷ xs) l h =
    run-IsSound xs (station_step (main_round wifi sample up) l)
      (main-IsSound wifi sample up l h.safe)
run-IsSound (blink_round ∷ xs) l h =
    run-IsSound xs (station_step blink_round l) (blink_in-IsSound l.station.charge.state l h)

station_start-IsSound : IsSound station_start
unfolding station_start charge_ctl_init
station_start-IsSound = record { safe = charge_ctl_init-IsSafe; exclusive = inl refl }

-- From the start of the station, after any rounds of the main loop and of the blink task in any
-- order and whatever is sampled, the charging output is on exactly in the charging state, a robot is
-- docked exactly outside the idle state, and the output and the beacon are not both on.
pub station-IsSafe :
    (xs : List StationStep)
    → let st = (run_station xs station_start).station in
      IsSafe st.charge × ((st.charge.output ≡ false) ⊎ (st.beacon.active ≡ false))
station-IsSafe xs =
    let h = run-IsSound xs station_start station_start-IsSound in (h.safe, h.exclusive)
