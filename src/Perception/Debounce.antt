-- ===== src/Perception/Debounce.antt =====
-- The debounced touch state and its events: firmware/components/perception/touch.c.
use companion_robot.Base.{
  ℕ, ◌≤◌, ◌<◌, ◌≡◌, ◌∙◌, ◌⊎◌, inl, inr, true, false, not, ◌&&◌, List, [], ◌∷◌, ltb, if◌then◌else◌,
  sub32, some, arith, All,
}
use companion_robot.Base.Float.{FloatOps}
use companion_robot.Behavior.Engine.{TouchZone}
use companion_robot.Perception.Touch.{
  ZoneState, TouchReport, PadReading, debounce, long_press, adapt, pad_step, pad_round,
  threshold_of,
}

-- The counter waits for at most one more reading, and the baseline fits its C type.
pub record IsPad (z : ZoneState) : Type 0 where
  pub waiting : z.debounce_ctr ≤ 1
  pub baseline_u16 : z.baseline < 65536

-- A reading that contradicts the state changes it only if the reading before did so too.
pub pad_step-IsPad :
    (zone : TouchZone) (threshold : ℕ) (r : PadReading) (z : ZoneState)
    → r.raw < 65536
    → IsPad z
    → IsPad (pad_step zone threshold r z).0
      × (((z.debounce_ctr ≡ 1) × ((pad_step zone threshold r z).0.touched ≡ ltb r.raw threshold))
          ⊎ ((z.debounce_ctr ≡ 0) × ((pad_step zone threshold r z).0.touched ≡ z.touched)))
unfolding pad_step debounce adapt
pad_step-IsPad zone threshold r z u h = ground arith

pad_step_ctr :
    (zone : TouchZone) (threshold : ℕ) (r : PadReading) (z : ZoneState)
    → IsPad z
    → ((pad_step zone threshold r z).0.debounce_ctr ≡ 1)
      ⊎ ((pad_step zone threshold r z).0.touched ≡ ltb r.raw threshold)
unfolding pad_step debounce adapt
pad_step_ctr zone threshold r z h = ground arith

-- Two readings in turn that agree, in rounds of any zone whose counter and baseline are as the code
-- keeps them, decide the state: the pad then counts as touched if both were below their threshold,
-- and as free if both were not. The state stays as the code keeps it.
two_readings_decide :
    {F : Type 0} (fl : FloatOps F) (zone : TouchZone) (r r' : PadReading) (z : ZoneState)
    → r.raw < 65536
    → r'.raw < 65536
    → IsPad z
    → let z1 = (pad_round fl zone (some r) z).0 in
      let z2 = (pad_round fl zone (some r') z1).0 in
      ltb r.raw (threshold_of fl z.baseline) ≡ ltb r'.raw (threshold_of fl z1.baseline)
      → (z2.touched ≡ ltb r'.raw (threshold_of fl z1.baseline)) × IsPad z2
unfolding pad_round
two_readings_decide fl zone r r' z u u' h e =
    let t = threshold_of fl z.baseline in
    let z1 = (pad_step zone t r z).0 in
    let t' = threshold_of fl z1.baseline in
    let s1 = pad_step-IsPad zone t r z u h in
    let s2 = pad_step-IsPad zone t' r' z1 u' s1.0 in
    (
      elim s2.1 [
        | inl (one, reads) ↦ reads
        | inr (none_waiting, stays) ↦ elim (pad_step_ctr zone t r z h) [
          | inl one ↦ absurd (omega (arith, one, none_waiting))
          | inr reads ↦ stays ∙ reads ∙ e
        ]
      ],
      s2.0,
    )

-- The releases among the events.
abbrev pub releases : List TouchReport → List TouchReport
releases [] = []
releases (e ∷ es) = if e.touched then releases es else e ∷ releases es

-- A round reports a release exactly if it ends a touch, once, with the time since the touch began;
-- every other event that it sends is of a pad that is touched after it and has been held for more
-- than half a second.
releases_reported :
    (zone : TouchZone) (threshold : ℕ) (r : PadReading) (z : ZoneState)
    → let out = pad_step zone threshold r z in
      (releases out.1 ≡ (
        if z.touched && not out.0.touched
        then record {
          zone = zone;
          touched = false;
          duration_ms = sub32 r.at_change z.touch_start_ms;
          timestamp_ms = r.at_change;
        }
          ∷ []
        else []))
      × All
          (λ (e : TouchReport).
            (e.touched ≡ false) ⊎ (out.0.touched ≡ true) × (500 < e.duration_ms))
          out.1
unfolding pad_step debounce adapt long_press
releases_reported zone threshold r z = ground arith
