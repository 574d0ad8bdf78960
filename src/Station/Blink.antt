-- ===== src/Station/Blink.antt =====
-- The blink task of firmware/charging-station/main/main.c, which shares the LED and the charge
-- controller with the main loop.
use companion_robot.Base.{
  ℕ, ◌≤◌, ◌≡◌, refl, ap, sym, subst, ◌∙◌, Bool, not, List, [], ◌∷◌, All, if◌then◌else◌, arith,
}
use companion_robot.Station.ChargeCtl.{
  CtlState, idle, docked, charging, complete, fault, Sample, charge_ctl_tick,
}
use companion_robot.Station.Loop.{Rgb, Indicator, WifiState, Station, loop_round}

-- The arguments of `status_indicator_set_rgb` for a green and for a red light.
abbrev pub green : Bool → Rgb
green on = record { r = 0; g = if on then 255 else 0; b = 0 }

abbrev pub red : Bool → Rgb
red on = record { r = if on then 255 else 0; g = 0; b = 0 }

-- The station with the `blink_on` of the task.
pub record Lamp : Type 0 where
  pub station : Station
  pub blink_on : Bool

abbrev shine : Bool → Rgb → Lamp → Lamp
shine on colour l =
    let ind : Indicator = record l.station.indicator { duty = colour } in
    record { station = record l.station { indicator = ind }; blink_on = on }

-- A round of `led_blink_task`, by the charge state.
unfoldable pub blink_in : CtlState → Lamp → Lamp
blink_in complete l = shine (not l.blink_on) (green (not l.blink_on)) l
blink_in fault l = shine (not l.blink_on) (red (not l.blink_on)) l
blink_in idle l = l
blink_in docked l = l
blink_in charging l = l

-- The delay after a round, in milliseconds.
abbrev pub blink_delay : CtlState → ℕ
blink_delay complete = 500
blink_delay fault = 200
blink_delay idle = 100
blink_delay docked = 100
blink_delay charging = 100

-- A round of the main loop or of the blink task.
pub data StationStep : Type 0 where
  main_round : (wifi : WifiState) → (sample : Sample) → (uptime_s : ℕ) → StationStep
  blink_round : StationStep

unfoldable pub station_step : StationStep → Lamp → Lamp
unfolding blink_in
station_step (main_round wifi sample up) l = record l {
  station = (loop_round l.station wifi sample up).0;
}
station_step blink_round l = blink_in l.station.charge.state l

unfoldable pub run_station : List StationStep → Lamp → Lamp
run_station [] l = l
run_station (x ∷ xs) l = run_station xs (station_step x l)

-- The contacts stay closed.
abbrev pub KeepsContact : StationStep → Type 0
KeepsContact (main_round wifi sample up) = 250 ≤ sample.v_mv
KeepsContact blink_round = Unit

-- `blink_on` after the blinks among some steps.
unfoldable pub blinks : List StationStep → Bool → Bool
blinks [] on = on
blinks (main_round wifi sample up ∷ xs) on = blinks xs on
blinks (blink_round ∷ xs) on = blinks xs (not on)

-- A complete charge, and a light that the blink task has set.
record IsBlinking (l : Lamp) : Type 0 where
  full : l.station.charge.state ≡ complete
  lit : l.station.indicator.duty ≡ green l.blink_on

main-IsBlinking :
    (wifi : WifiState) (sample : Sample) (up : ℕ) (l : Lamp)
    → 250 ≤ sample.v_mv
    → l.station.charge.state ≡ complete
    → let l' = station_step (main_round wifi sample up) l in
      (l'.station.charge.state ≡ complete) × (l'.station.indicator ≡ l.station.indicator)
unfolding station_step loop_round charge_ctl_tick
main-IsBlinking wifi sample up l v h = ground arith

blink-complete :
    (l : Lamp)
    → l.station.charge.state ≡ complete
    → station_step blink_round l ≡ shine (not l.blink_on) (green (not l.blink_on)) l
unfolding station_step
blink-complete l h = ap (λ (s : CtlState). blink_in s l) h

run-IsBlinking :
    (xs : List StationStep) (l : Lamp)
    → IsBlinking l
    → All KeepsContact xs
    → IsBlinking (run_station xs l) × ((run_station xs l).blink_on ≡ blinks xs l.blink_on)
unfolding run_station blinks station_step
run-IsBlinking [] l h k = (h, refl)
run-IsBlinking (main_round wifi sample up ∷ xs) l h (k, ks) =
    let (full, same) = main-IsBlinking wifi sample up l k h.full in
    run-IsBlinking xs (station_step (main_round wifi sample up) l)
      (record { full = full; lit = ap (λ (i : Indicator). i.duty) same ∙ h.lit }) ks
run-IsBlinking (blink_round ∷ xs) l h (k, ks) =
    subst
      (λ (l' : Lamp).
        IsBlinking (run_station xs l')
        × ((run_station xs l').blink_on ≡ blinks xs (not l.blink_on)))
      (sym (blink-complete l h.full))
      (run-IsBlinking xs (shine (not l.blink_on) (green (not l.blink_on)) l)
        (record { full = h.full; lit = refl }) ks)

-- With a complete charge and while the contacts stay closed, the light blinks green, however the
-- rounds of the main loop and of the blink task are interleaved: from the first round of the blink
-- task on it is green or dark, in turn with each round of that task, the charge stays complete, and
-- the main loop changes nothing of it.
pub light_blinks :
    (xs : List StationStep) (l : Lamp)
    → l.station.charge.state ≡ complete
    → All KeepsContact xs
    → let l' = run_station (blink_round ∷ xs) l in
      (l'.station.charge.state ≡ complete)
      × (l'.blink_on ≡ blinks xs (not l.blink_on))
      × (l'.station.indicator.duty ≡ green (blinks xs (not l.blink_on)))
unfolding run_station
light_blinks xs l h ks =
    let l1 = shine (not l.blink_on) (green (not l.blink_on)) l in
    let (b, on) = run-IsBlinking xs l1 (record { full = h; lit = refl }) ks in
    subst
      (λ (l' : Lamp).
        ((run_station xs l').station.charge.state ≡ complete)
        × ((run_station xs l').blink_on ≡ blinks xs (not l.blink_on))
        × ((run_station xs l').station.indicator.duty ≡ green (blinks xs (not l.blink_on))))
      (sym (blink-complete l h)) (b.full, on, b.lit ∙ ap green on)

-- After a fault, with the contacts closed, each round of the main loop sets the light of the fault
-- again, so the dark half of the red blinking lasts no longer than such a round.
main_round-red :
    (wifi : WifiState) (sample : Sample) (up : ℕ) (l : Lamp)
    → 250 ≤ sample.v_mv
    → l.station.charge.state ≡ fault
    → let l' = station_step (main_round wifi sample up) l in
      (l'.station.charge.state ≡ fault)
      × (l'.station.indicator.duty ≡ record { r = 255; g = 30; b = 0 })
unfolding station_step loop_round charge_ctl_tick
main_round-red wifi sample up l v h = ground arith
