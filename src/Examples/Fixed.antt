-- ===== src/Examples/Fixed.antt =====
-- Fixed-point numbers, in signed thousandths, in place of the `float` of the other examples. The
-- root and the functions of angles are coarse; sums, differences and comparisons are exact.
use companion_robot.Base.{◌*◌, ◌/◌, ◌%◌, if◌then◌else◌, arith}
use companion_robot.Base.Float.{FloatOps}
use companion_robot.Base.Int.{ℤ, pos, above, below, difference, ◌+ℤ◌, ◌-ℤ◌, ltb_ℤ}
use companion_robot.Base.Signed.{◌*ℤ◌, quotient}
use companion_robot.Localization.Heading.{TurnLaws}
use companion_robot.Localization.Standstill.{SumLaw}

abbrev pub thousandths : FloatOps ℤ
thousandths = record {
  literal = λ n d. pos (n * 1000 / d);
  of_int = λ n. pos (n * 1000);
  to_int = λ a. above a / 1000;
  plus = λ a b. a +ℤ b;
  minus = λ a b. a -ℤ b;
  times = λ a b. quotient (a *ℤ b) (pos 1000);
  over = λ a b. quotient (a *ℤ pos 1000) b;
  negate = λ a. difference (below a) (above a);
  fabsf = λ a. if ltb_ℤ a (pos 0) then pos (below a) else a;
  sqrtf = λ a. a;
  sinf = λ a. pos 0;
  cosf = λ a. pos 1000;
  fmodf = λ a b. pos (above a % above b);
  fmaxf = λ a b. if ltb_ℤ a b then b else a;
  fminf = λ a b. if ltb_ℤ a b then a else b;
  atan2f = λ a b. if ltb_ℤ b (pos 0) then pos 3142 else pos 0;
  less = ltb_ℤ;
}

pub turns : TurnLaws thousandths
unfolding ◌+ℤ◌ ◌-ℤ◌
turns = record { down = λ y h k. ground (arith, h, k); up = λ y h k. ground (arith, h, k) }

pub sums : SumLaw thousandths
unfolding ◌+ℤ◌
sums a b h k = ground (arith, h, k)
