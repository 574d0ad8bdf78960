-- ===== src/Behavior/Keywords.antt =====
-- The keyword match and the commands of the offline mode: firmware/components/behavior/offline.c.
use companion_robot.Base.{
  ℕ, ◌≡◌, refl, ap, ◌∙◌, ◌⊎◌, inl, inr, Bool, true, false, ◌&&◌, Option, none, some, List, [], ◌∷◌,
  ◌++◌, map, ◌==◌, Bool-cases, ==_refl, arith, ◌≢◌,
}
use companion_robot.Bcp.Ids.{kind_of, heartbeat, register, bcp_error}
use companion_robot.Behavior.Engine.{blinking}
use companion_robot.Motion.MotorCtl.{move, bcp_dir_stop}
use companion_robot.Behavior.Offline.{
  Keyword, keywords, lower, is_prefix, occurs_in, match_in, match_keyword, offline_process_command,
  execute_offline_command, send_motor, led_set_solid, led_set_pattern,
}

-- Some part of the text is the keyword, up to the case of letters.
pub record Contains (kw text : List ℕ) : Type 0 where
  pub before : List ℕ
  pub found : List ℕ
  pub after : List ℕ
  pub is_there : text ≡ before ++ (found ++ after)
  pub is_same : map lower found ≡ map lower kw

-- The first keyword of a table that a text contains.
pub data Finds (text : List ℕ) : List Keyword → Option Keyword → Type 0 where
  nowhere : Finds text [] none
  here : {k : Keyword} {ks : List Keyword} → Contains k.keyword text → Finds text (k ∷ ks) (some k)
  there :
      {k : Keyword} {ks : List Keyword} {r : Option Keyword}
      → (Contains k.keyword text → ⊥)
      → Finds text ks r
      → Finds text (k ∷ ks) r

and_true : (a b : Bool) → (a && b) ≡ true → (a ≡ true) × (b ≡ true)
and_true a b h = ground arith

same_of : (x y : ℕ) → (x == y) ≡ true → x ≡ y
same_of x y h = ground arith

cons_cons : (u v : ℕ) (p q : List ℕ) → (u ∷ p) ≡ (v ∷ q) → (u ≡ v) × (p ≡ q)
cons_cons u v p q h = (cc, cc)

is_prefix_sound :
    (a b : List ℕ)
    → is_prefix a b ≡ true
    → (m : List ℕ) × (r : List ℕ) × (b ≡ m ++ r) × (map lower m ≡ map lower a)
unfolding is_prefix
is_prefix_sound [] b h = ([], b, refl, refl)
is_prefix_sound (x ∷ a) [] h = absurd (cc)
is_prefix_sound (x ∷ a) (y ∷ b) h =
    let both = and_true (lower x == lower y) (is_prefix a b) h in
    let (m, r, e, f) = is_prefix_sound a b both.1 in
    (y ∷ m, r, ap (◌∷◌ y) e, cc (same_of (lower x) (lower y) both.0, f))

is_prefix_complete : (a m r : List ℕ) → map lower m ≡ map lower a → is_prefix a (m ++ r) ≡ true
unfolding is_prefix
is_prefix_complete [] m r h = refl
is_prefix_complete (x ∷ a) [] r h = absurd (cc)
is_prefix_complete (x ∷ a) (y ∷ m) r h =
    let both = cons_cons (lower y) (lower x) (map lower m) (map lower a) h in
    rw (both.0, ==_refl (lower x)) (is_prefix_complete a m r both.1)

occurs_in_sound : (kw text : List ℕ) → occurs_in kw text ≡ true → Contains kw text
unfolding occurs_in
occurs_in_sound kw [] h = absurd (cc)
occurs_in_sound kw (c ∷ text) h = elim (Bool-cases (is_prefix kw (c ∷ text))) [
  | inl p ↦
      let (m, r, e, f) = is_prefix_sound kw (c ∷ text) p in
      record { before = []; found = m; after = r; is_there = e; is_same = f }
  | inr p ↦
      let i = occurs_in_sound kw text (rw p at h) in
      record {
        before = c ∷ i.before;
        found = i.found;
        after = i.after;
        is_there = ap (◌∷◌ c) i.is_there;
        is_same = i.is_same;
      }
]

-- For a keyword `x ∷ a`: the empty one is found nowhere in an empty text.
occurs_in_complete :
    (x : ℕ) (a p m r : List ℕ)
    → map lower m ≡ map lower (x ∷ a)
    → occurs_in (x ∷ a) (p ++ (m ++ r)) ≡ true
unfolding occurs_in
occurs_in_complete x a [] [] r h = absurd (cc)
occurs_in_complete x a [] (y ∷ m) r h = rw (is_prefix_complete (x ∷ a) (y ∷ m) r h) refl
occurs_in_complete x a (c ∷ p) m r h = ground (arith, occurs_in_complete x a p m r h)

-- The table's property that the search relies on.
abbrev AllNamed : List Keyword → Type 0
AllNamed [] = Unit
AllNamed (k ∷ ks) = ((x : ℕ) × (a : List ℕ) × (k.keyword ≡ x ∷ a)) × AllNamed ks

keywords-AllNamed : AllNamed keywords
keywords-AllNamed = (
  (_, _, refl),
  (
    (_, _, refl),
    (
      (_, _, refl),
      (
        (_, _, refl),
        ((_, _, refl), ((_, _, refl), ((_, _, refl), ((_, _, refl), ((_, _, refl), tt))))),
      ),
    ),
  ),
)

not_contained :
    (k : Keyword) (text : List ℕ)
    → ((x : ℕ) × (a : List ℕ) × (k.keyword ≡ x ∷ a))
    → occurs_in k.keyword text ≡ false
    → Contains k.keyword text
    → ⊥
not_contained k text (x, a, e) h c =
    let there = occurs_in_complete x a c.before c.found c.after (c.is_same ∙ ap (map lower) e) in
    let same = ap (λ (kw : List ℕ). occurs_in kw text) e in
    let found = ap (occurs_in (x ∷ a)) c.is_there in cc

match_in-Finds :
    (ks : List Keyword) (text : List ℕ) → AllNamed ks → Finds text ks (match_in ks text)
unfolding match_in
match_in-Finds [] text n = nowhere
match_in-Finds (k ∷ ks) text n = elim (Bool-cases (occurs_in k.keyword text)) [
  | inl e ↦ rw e (here (occurs_in_sound k.keyword text e))
  | inr e ↦ rw e (there (not_contained k text n.0 e) (match_in-Finds ks text n.1))
]

-- `match_keyword` returns the first entry of the table that the text contains, up to the case of
-- letters, and nothing exactly when it contains none of them.
pub match_keyword-Finds : (text : List ℕ) → Finds text keywords (match_keyword text)
unfolding match_keyword
match_keyword-Finds text = match_in-Finds keywords text keywords-AllNamed

-- Which commands from the gateway the offline mode carries out. The identifiers of its table are
-- those of a heartbeat, which stops the motors, of a registration, which turns the lights white,
-- and of an error, which makes them blink green. Every other command, so every movement, stop,
-- servo, light and speech command, is answered with success and does nothing.
only_housekeeping_acts :
    (id : ℕ)
    → ((offline_process_command (some id) ≡ (true, []))
        × (kind_of id ≢ heartbeat)
        × (kind_of id ≢ register)
        × (kind_of id ≢ bcp_error))
      ⊎ ((kind_of id ≡ heartbeat)
          × (offline_process_command (some id) ≡ (true, send_motor (move bcp_dir_stop 0 0) ∷ [])))
      ⊎ ((kind_of id ≡ register)
          × (offline_process_command (some id) ≡ (true, led_set_solid 255 255 255 ∷ [])))
      ⊎ ((kind_of id ≡ bcp_error)
          × (offline_process_command (some id) ≡ (true, led_set_pattern blinking 100 0 255 0 ∷ [])))
unfolding offline_process_command execute_offline_command kind_of
only_housekeeping_acts id = ground arith
