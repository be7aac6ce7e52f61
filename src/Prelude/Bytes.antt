-- ===== src/Prelude/Bytes.antt =====
-- Bytes of text and of little-endian integers, and decimal digits.
use Prim.Native.Nat.{ℕ, zero, suc, ◌+◌, ◌*◌, ◌/◌, ◌%◌, ◌^◌, ◌<◌, ◌≤◌}
use Prim.Native.Char.{code}
use Prim.Native.String.{String}
use mathlib.Core.Path.{◌≡◌}
use mathlib.Core.List.{List, [], ◌∷◌, ◌++◌}
use native.Mathlib.Nat.{pow-suc}
use native.Mathlib.Omega.{arith}
use prog_playground.Prelude.Tests.{if◌then◌else◌, ltb, Bool-cases}
use prog_playground.Prelude.Lists.{length, length-append}
use mathlib.Core.Logic.{inl, inr}

-- The code points of a text: its bytes, if it is ASCII.
abbrev pub codes : String → List ℕ
codes String.[] = []
codes (String.◌∷◌ c s) = code c ∷ codes s

-- The `n` bytes of an integer in memory, the lowest first, and back.
abbrev pub le_bytes : ℕ → ℕ → List ℕ
le_bytes zero x = []
le_bytes (suc n) x = x % 256 ∷ le_bytes n (x / 256)

abbrev pub of_le_bytes : List ℕ → ℕ
of_le_bytes [] = 0
of_le_bytes (b ∷ bs) = b + 256 * of_le_bytes bs

pub of_le_bytes-le_bytes : (n x : ℕ) → x < 256 ^ n → of_le_bytes (le_bytes n x) ≡ x
of_le_bytes-le_bytes zero x h = omega arith
of_le_bytes-le_bytes (suc n) x h =
    omega (arith, pow-suc 256 n, of_le_bytes-le_bytes n (x / 256) (omega (arith, pow-suc 256 n)))

-- `%d` and `%u` of a number with at most `fuel` digits.
unfoldable pub decimal : ℕ → ℕ → List ℕ
decimal zero n = []
decimal (suc fuel) n =
    let front = decimal fuel (n / 10) in (if ltb n 10 then [] else front) ++ (n % 10 + b'0') ∷ []

pub length-decimal : (fuel n : ℕ) → length (decimal fuel n) ≤ fuel
unfolding decimal
length-decimal zero n = omega arith
length-decimal (suc fuel) n = elim (Bool-cases (ltb n 10)) [
  | inl small ↦ rw (small, decimal) (omega arith)
  | inr large ↦
      rw (large, decimal)
        (omega (
          arith,
          length-append {A = ℕ} (decimal fuel (n / 10)) ((n % 10 + b'0') ∷ []),
          length-decimal fuel (n / 10),
        ))
]
