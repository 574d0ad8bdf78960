-- ===== src/Base/Int.antt =====
-- Signed integers over the native numbers, and `int16_t`.
use Prim.Native.Nat.{ℕ, suc, ◌+◌, ◌-◌, ◌%◌, ◌≤◌, ◌<◌}
use mathlib.Core.Path.{◌≡◌}
use mathlib.Core.Bool.{Bool}
use native.Mathlib.Omega.{arith}
use companion_robot.Base.Tests.{ltb, leb, if◌then◌else◌}

-- `negsuc n` is -(n + 1).
pub data ℤ : Type 0 where
  pos : ℕ → ℤ
  negsuc : ℕ → ℤ

abbrev pub above : ℤ → ℕ
above (pos n) = n
above (negsuc _) = 0

abbrev pub below : ℤ → ℕ
below (pos _) = 0
below (negsuc n) = suc n

abbrev pub difference : ℕ → ℕ → ℤ
difference a b = if leb b a then pos (a - b) else negsuc (b - a - 1)

infixl 65 ◌+ℤ◌ ◌-ℤ◌
unfoldable pub ◌+ℤ◌ : ℤ → ℤ → ℤ
a +ℤ b = difference (above a + above b) (below a + below b)

unfoldable pub ◌-ℤ◌ : ℤ → ℤ → ℤ
a -ℤ b = difference (above a + below b) (below a + above b)

abbrev pub ltb_ℤ : ℤ → ℤ → Bool
ltb_ℤ a b = ltb (above a + below b) (above b + below a)

infix 50 ◌≤ℤ◌
abbrev pub ◌≤ℤ◌ : ℤ → ℤ → Type 0
a ≤ℤ b = above a + below b ≤ above b + below a

-- The cast to `int16_t`.
unfoldable pub int16 : ℤ → ℤ
int16 (pos n) = let m = n % 65536 in if ltb m 32768 then pos m else negsuc (65535 - m)
int16 (negsuc n) = let m = n % 65536 in if ltb m 32768 then negsuc m else pos (65535 - m)

pub int16_small : (a : ℤ) → above a < 32768 → below a < 32768 → int16 a ≡ a
unfolding int16
int16_small (pos n) h k = ground arith
int16_small (negsuc n) h k = ground arith

pub +ℤ_parts : (a b : ℤ) → above (a +ℤ b) + below a + below b ≡ below (a +ℤ b) + above a + above b
unfolding ◌+ℤ◌
+ℤ_parts a b = ground arith

pub -ℤ_parts : (a b : ℤ) → above (a -ℤ b) + below a + above b ≡ below (a -ℤ b) + above a + below b
unfolding ◌-ℤ◌
-ℤ_parts a b = ground arith

pub parts_injective : (a b : ℤ) → above a + below b ≡ above b + below a → a ≡ b
parts_injective a b h = ground arith

pub +ℤ_le : (a b : ℤ) → (above (a +ℤ b) ≤ above a + above b) × (below (a +ℤ b) ≤ below a + below b)
unfolding ◌+ℤ◌
+ℤ_le a b = ground arith

pub -ℤ_le : (a b : ℤ) → (above (a -ℤ b) ≤ above a + below b) × (below (a -ℤ b) ≤ below a + above b)
unfolding ◌-ℤ◌
-ℤ_le a b = ground arith
