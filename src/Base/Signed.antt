-- ===== src/Base/Signed.antt =====
-- Signed machine arithmetic: products, shifts and quotients of integers, and the wrap-around of a
-- type of `w` bits, which the operations write out.
use Prim.Native.Nat.{ℕ, suc, ◌+◌, ◌-◌, ◌*◌, ◌/◌, ◌%◌, ◌^◌}
use mathlib.Core.Path.{◌≡◌, refl}
use companion_robot.Base.Tests.{ltb, if◌then◌else◌}
use companion_robot.Base.Int.{ℤ, pos, negsuc, above, below, difference, ◌+ℤ◌, ◌-ℤ◌}

infixl 70 ◌*ℤ◌
unfoldable pub ◌*ℤ◌ : ℤ → ℤ → ℤ
a *ℤ b = difference (above a * above b + below a * below b) (above a * below b + below a * above b)

-- The value of `w` bits in two's complement.
unfoldable pub wrap : (w : ℕ) → ℤ → ℤ
wrap w (pos n) = let m = n % 2 ^ w in if ltb (2 * m) (2 ^ w) then pos m else negsuc (2 ^ w - 1 - m)
wrap w (negsuc n) =
    let m = n % 2 ^ w in if ltb (2 * m) (2 ^ w) then negsuc m else pos (2 ^ w - 1 - m)

unfoldable pub sum : (w : ℕ) → ℤ → ℤ → ℤ
unfolding wrap ◌+ℤ◌
sum w a b = wrap w (a +ℤ b)

unfoldable pub minus : (w : ℕ) → ℤ → ℤ → ℤ
unfolding wrap ◌-ℤ◌
minus w a b = wrap w (a -ℤ b)

unfoldable pub times : (w : ℕ) → ℤ → ℤ → ℤ
unfolding wrap ◌*ℤ◌
times w a b = wrap w (a *ℤ b)

-- `a << k` and `a >> k`.
unfoldable pub left : (w : ℕ) → ℤ → ℕ → ℤ
unfolding times
left w a k = times w a (pos (2 ^ k))

unfoldable pub right : ℤ → ℕ → ℤ
right (pos n) k = pos (n / 2 ^ k)
right (negsuc n) k = negsuc (n / 2 ^ k)

-- The quotient of C, which cuts towards 0.
unfoldable pub quotient : ℤ → ℤ → ℤ
quotient (pos a) (pos b) = pos (a / b)
quotient (pos a) (negsuc b) = difference 0 (a / suc b)
quotient (negsuc a) (pos b) = difference 0 (suc a / b)
quotient (negsuc a) (negsuc b) = pos (suc a / suc b)

wrap_negative : wrap 8 (pos 200) ≡ negsuc 55
unfolding wrap
wrap_negative = refl

right_negative : right (negsuc 4) 1 ≡ negsuc 2
unfolding right
right_negative = refl
