-- ===== src/Localization/Heading.antt =====
-- The loops that wrap a heading: firmware/components/localization/localization.c and motor.c.
use companion_robot.Base.{
  ℕ, suc, ◌≡◌, refl, ap, ◌∙◌, true, false, Option, none, some, Bool-cases, inl, inr,
}
use companion_robot.Base.Float.{FloatOps}
use companion_robot.Localization.Estimate.{lit, wrap_down, wrap_up, wrap_yaw}

module _ {F : Type 0} (fl : FloatOps F) where
  -- A heading is not past `n` degrees on either side.
  abbrev pub Inside : ℕ → F → Type 0
  Inside n y = (fl.less (lit fl n 1) y ≡ false) × (fl.less y (fl.negate (lit fl n 1)) ≡ false)

  -- What a turn of 360 degrees does to a heading up to 540 degrees that is past a half turn.
  pub record TurnLaws : Type 0 where
    pub down :
        (y : F)
        → Inside 540 y
        → fl.less (lit fl 180 1) y ≡ true
        → Inside 180 (fl.minus y (lit fl 360 1))
    pub up :
        (y : F)
        → Inside 540 y
        → fl.less y (fl.negate (lit fl 180 1)) ≡ true
        → Inside 180 (fl.plus y (lit fl 360 1))

  wrap_down_once :
      (n : ℕ) (y : F)
      → fl.less (lit fl 180 1) y ≡ true
      → wrap_down fl (suc n) y ≡ wrap_down fl n (fl.minus y (lit fl 360 1))
  unfolding wrap_down
  wrap_down_once n y h = rw h refl

  wrap_down_done :
      (n : ℕ) (y : F) → fl.less (lit fl 180 1) y ≡ false → wrap_down fl (suc n) y ≡ some y
  unfolding wrap_down
  wrap_down_done n y h = rw h refl

  wrap_up_once :
      (n : ℕ) (y : F)
      → fl.less y (fl.negate (lit fl 180 1)) ≡ true
      → wrap_up fl (suc n) y ≡ wrap_up fl n (fl.plus y (lit fl 360 1))
  unfolding wrap_up
  wrap_up_once n y h = rw h refl

  wrap_up_done :
      (n : ℕ) (y : F) → fl.less y (fl.negate (lit fl 180 1)) ≡ false → wrap_up fl (suc n) y ≡ some y
  unfolding wrap_up
  wrap_up_done n y h = rw h refl

  abbrev then_up : ℕ → Option F → Option F
  then_up fuel none = none
  then_up fuel (some y) = wrap_up fl fuel y

  -- From at most 540 degrees on either side, two rounds of each loop are enough, and the heading
  -- ends within a half turn.
  pub wrap_near :
      (n : ℕ) (y : F)
      → TurnLaws
      → Inside 540 y
      → (z : F) × (wrap_yaw fl (suc (suc n)) y ≡ some z) × Inside 180 z
  unfolding wrap_yaw
  wrap_near n y t near = elim (Bool-cases (fl.less (lit fl 180 1) y)) [
    | inl h ↦
        let z = fl.minus y (lit fl 360 1) in
        let within = t.down y near h in
        (
          z,
          ap (then_up (suc (suc n))) (wrap_down_once (suc n) y h ∙ wrap_down_done n z within.0)
              ∙ wrap_up_done (suc n) z within.1,
          within,
        )
    | inr h ↦ elim (Bool-cases (fl.less y (fl.negate (lit fl 180 1)))) [
      | inl k ↦
          let z = fl.plus y (lit fl 360 1) in
          let within = t.up y near k in
          (
            z,
            ap (then_up (suc (suc n))) (wrap_down_done (suc n) y h)
                ∙ (wrap_up_once (suc n) y k ∙ wrap_up_done n z within.1),
            within,
          )
      | inr k ↦ (
        y,
        ap (then_up (suc (suc n))) (wrap_down_done (suc n) y h) ∙ wrap_up_done (suc n) y k,
        (h, k),
      )
    ]
  ]
