-- ===== src/Prelude/Powers.antt =====
-- Powers of two: order, and the uniqueness of the exponent.
use Prim.Native.Nat.{ℕ, suc, ◌^◌, ◌≤◌, ◌<◌}
use mathlib.Core.Path.{◌≡◌}
use mathlib.Core.Logic.{inl, inr}
use native.Mathlib.Nat.{pow-le-pow_right}
use native.Mathlib.Omega.{arith}
use prog_playground.Prelude.Tests.{ltb, ltb→lt, not_ltb→le, Bool-cases}

pub two_pow_mono : (a b : ℕ) → a ≤ b → 2 ^ a ≤ 2 ^ b
two_pow_mono a b h = pow-le-pow_right (omega arith) h

pub exponent_lt : (a b : ℕ) → 2 ^ a < 2 ^ b → a < b
exponent_lt a b h = elim (Bool-cases (ltb a b)) [
  | inl lt ↦ ltb→lt a b lt
  | inr ge ↦ absurd (omega (arith, two_pow_mono b a (not_ltb→le a b ge)))
]

-- The exponent of the highest power of two below `v` is one number.
pub exponent_unique : (v i j : ℕ) → 2 ^ i ≤ v → v < 2 ^ suc i → 2 ^ j ≤ v → v < 2 ^ suc j → i ≡ j
exponent_unique v i j a b c d =
    omega (arith, exponent_lt i (suc j) (omega arith), exponent_lt j (suc i) (omega arith))
