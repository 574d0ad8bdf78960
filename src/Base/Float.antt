-- ===== src/Base/Float.antt =====
-- What the firmware does with a C `float`. The type and its operations are parameters: the model
-- knows of no law of floating-point arithmetic but the ones that a theorem names.
use Prim.Native.Nat.{ℕ, ◌-◌}
use mathlib.Core.Bool.{Bool}
use companion_robot.Base.Tests.{ltb, if◌then◌else◌}

-- `literal n d` is the constant `n / d`, rounded; `of_int` converts an integer to a float, and
-- `to_int` is the cast of a float that is not negative to an integer.
pub record FloatOps (F : Type 0) : Type 0 where
  pub literal : ℕ → ℕ → F
  pub of_int : ℕ → F
  pub to_int : F → ℕ
  pub plus : F → F → F
  pub minus : F → F → F
  pub times : F → F → F
  pub over : F → F → F
  pub negate : F → F
  pub fabsf : F → F
  pub sqrtf : F → F
  pub sinf : F → F
  pub cosf : F → F
  pub fmodf : F → F → F
  pub fmaxf : F → F → F
  pub fminf : F → F → F
  pub atan2f : F → F → F
  pub less : F → F → Bool

-- An `int16_t`, given as a word of 16 bits, converted to a float.
abbrev pub of_int16 : {F : Type 0} → FloatOps F → ℕ → F
of_int16 fl n = if ltb n 32768 then fl.of_int n else fl.negate (fl.of_int (65536 - n))
