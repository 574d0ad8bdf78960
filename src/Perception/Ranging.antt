-- ===== src/Perception/Ranging.antt =====
-- What the set-up of the distance sensors leaves of their addresses, and what the obstacle detection
-- then sees: firmware/components/perception/tof.c, firmware/components/motion/obstacle.c.
use companion_robot.Base.{
  ℕ, ◌≡◌, refl, ap, sym, ◌∙◌, ◌⊎◌, inl, inr, Bool, true, false, not, ◌&&◌, ◌||◌, none, some, List,
  [], ◌∷◌, ◌++◌, ◌==◌, if◌then◌else◌, arith,
}
use companion_robot.Motion.Obstacle.{TofReading, in_stop_zone, in_slow_zone}
use companion_robot.Motion.Hysteresis.{seen, failed_side_hides_front}
use companion_robot.Perception.Tof.{
  TofAct, set_level, write, InitAnswers, RangeAnswers, set_address, check_model, init_single_sensor,
  init_turn, all_levels, tof_init, read_range, read_turn, or_0, tof_read_all, vl53l0x_addr,
  reg_device_address,
}

-- Whether the pin of a sensor is high, and whether an address was assigned while it was and it has
-- not been low since.
abbrev after_act : ℕ → Bool × Bool → TofAct → Bool × Bool
after_act pin (high, holds) (set_level p b) = if p == pin then (b, holds && b) else (high, holds)
after_act pin (high, holds) (write addr reg val) =
    (high, holds || (high && ((addr == vl53l0x_addr) && (reg == reg_device_address))))

abbrev pub after_acts : ℕ → Bool × Bool → List TofAct → Bool × Bool
after_acts pin s [] = s
after_acts pin s (a ∷ acts) = after_acts pin (after_act pin s a) acts

-- The address that an assignment gave the sensor is still in force after `acts`: since then its pin
-- has not been low.
abbrev pub keeps_address : ℕ → List TofAct → Bool
keeps_address pin acts = (after_acts pin (false, false) acts).1

after_acts-append :
    (pin : ℕ) (s : Bool × Bool) (xs ys : List TofAct)
    → after_acts pin s (xs ++ ys) ≡ after_acts pin (after_acts pin s xs) ys
after_acts-append pin s [] ys = refl
after_acts-append pin s (x ∷ xs) ys = after_acts-append pin (after_act pin s x) xs ys

in_turn :
    (pin : ℕ) (s : Bool × Bool) (xs ys zs us : List TofAct)
    → after_acts pin s (xs ++ (ys ++ (zs ++ us)))
      ≡ after_acts pin (after_acts pin (after_acts pin (after_acts pin s xs) ys) zs) us
in_turn pin s xs ys zs us =
    let t = after_acts pin s xs in
    after_acts-append pin s xs (ys ++ (zs ++ us))
    ∙ after_acts-append pin t ys (zs ++ us)
    ∙ after_acts-append pin (after_acts pin t ys) zs us

kept : (b ok : Bool) → (b || not ok) ≡ true → ((b && true) || not ok) ≡ true
kept b ok h = ground arith

third_turn :
    (s : Bool × Bool) (a : InitAnswers)
    → (after_acts 0 s (init_turn 2 a).1 ≡ (false, false))
      × (after_acts 1 s (init_turn 2 a).1 ≡ (false, false))
      × (((after_acts 2 s (init_turn 2 a).1).1 || not (init_turn 2 a).0) ≡ true)
unfolding init_turn init_single_sensor check_model set_address
third_turn (h, b) a = ground arith

-- After the set-up, whatever the bus answers, the first two sensors have lost the address that they
-- may have been given: their pins have been low since, while the third was set up. The third
-- sensor keeps its address if its set-up counts as successful.
pub addresses_lost :
    (a0 a1 a2 : InitAnswers)
    → let (ok, acts) = tof_init a0 a1 a2 in
      (keeps_address 0 acts ≡ false)
      × (keeps_address 1 acts ≡ false)
      × ((keeps_address 2 acts || not ok.2) ≡ true)
unfolding tof_init
addresses_lost a0 a1 a2 =
    let earlier : ℕ → Bool × Bool =
      λ pin. after_acts pin (after_acts pin (false, false) (init_turn 0 a0).1) (init_turn 1 a1).1 in
    let turns = λ (pin : ℕ).
      in_turn pin (false, false) (init_turn 0 a0).1 (init_turn 1 a1).1 (init_turn 2 a2).1
        (all_levels true) in
    let (l0, _, _) = third_turn (earlier 0) a2 in
    let (_, t1, _) = third_turn (earlier 1) a2 in
    let (_, _, k2) = third_turn (earlier 2) a2 in
    (
      ap (λ (s : Bool × Bool). s.1) (turns 0) ∙ ap (λ (s : Bool × Bool). s.1 && true) l0,
      ap (λ (s : Bool × Bool). s.1) (turns 1) ∙ ap (λ (s : Bool × Bool). s.1 && true) t1,
      ap (λ (s : Bool × Bool). s.1 || not (init_turn 2 a2).0) (turns 2) ∙ kept _ _ k2,
    )

unanswered :
    (before : ℕ) (ok : Bool) (r : RangeAnswers) → r.status ≡ none → read_turn before ok r ≡ none
unfolding read_turn read_range
unanswered before true r e = rw e refl
unanswered before false r e = refl

tof_read_all_lem :
    (before : ℕ → ℕ) (ok : Bool × Bool × Bool) (r0 r1 r2 : RangeAnswers) (t : TofReading)
    → tof_read_all before ok r0 r1 r2 ≡ some t
    → (or_0 (read_turn (before 1) ok.1 r1) ≡ t.mm1) × (or_0 (read_turn (before 2) ok.2 r2) ≡ t.mm2)
unfolding tof_read_all
tof_read_all_lem before ok r0 r1 r2 t e = ground (arith, e)

-- A read of all three sensors that succeeds though the second or the third sensor does not answer
-- for its status: the front distance that the obstacle detection takes from it is 0, and lies in
-- neither of the zones, whatever the other sensors answer and whatever the uninitialised variables
-- hold.
silent_side_hides_front :
    (before : ℕ → ℕ) (ok : Bool × Bool × Bool) (r0 r1 r2 : RangeAnswers) (t : TofReading)
    → (r1.status ≡ none) ⊎ (r2.status ≡ none)
    → tof_read_all before ok r0 r1 r2 ≡ some t
    → ((seen t).front ≡ 0)
      × (in_stop_zone (seen t).front ≡ false)
      × (in_slow_zone (seen t).front ≡ false)
silent_side_hides_front before ok r0 r1 r2 t h e =
    let (one, two) = tof_read_all_lem before ok r0 r1 r2 t e in
    failed_side_hides_front t (elim h [
      | inl n ↦ inl (sym one ∙ ap or_0 (unanswered (before 1) ok.1 r1 n))
      | inr n ↦ inr (sym two ∙ ap or_0 (unanswered (before 2) ok.2 r2 n))
    ])
