-- ===== src/Prelude/Keys.antt =====
-- Equality of keys as an interface, and lists of distinct keys.
use mathlib.Core.Path.{◌≡◌, refl}
use mathlib.Core.Logic.{◌↔◌, inl, inr}
use mathlib.Core.Bool.{Bool, true, false, ◌||◌}
use mathlib.Core.List.{List, [], ◌∷◌}
use Prim.Native.Nat.{ℕ}
use native.Mathlib.Omega.{arith}
use prog_playground.Prelude.Tests.{if◌then◌else◌, Bool-cases, ==_iff}
use prog_playground.Prelude.Tests

pub record KeyEq {ℓ} (A : Type ℓ) : Type ℓ where
  pub is_same : A → A → Bool
  pub is_same_iff : (a b : A) → (is_same a b ≡ true) ↔ (a ≡ b)

instance abbrev pub nat_eq : KeyEq ℕ
nat_eq = record { is_same = λ a b. Tests.◌==◌ a b; is_same_iff = ==_iff }

module _ {ℓ} {K : Type ℓ} ⦃e : KeyEq K⦄ where
  abbrev pub same : K → K → Bool
  same = e.is_same

  pub same_refl : (k : K) → same k k ≡ true
  same_refl k = (e.is_same_iff k k).1 refl

  abbrev pub contains : K → List K → Bool
  contains k [] = false
  contains k (x ∷ xs) = same x k || contains k xs

  -- The keys that stand behind the first `k`.
  abbrev pub after : K → List K → List K
  after k [] = []
  after k (x ∷ xs) = if same x k then xs else after k xs

  abbrev pub Distinct : List K → Type 0
  Distinct [] = Unit
  Distinct (x ∷ xs) = (contains x xs ≡ false) × Distinct xs

  pub contains-after : (k x : K) (ks rest : List K) → after k ks ≡ x ∷ rest → contains x ks ≡ true
  contains-after k x [] rest h = cc
  contains-after k x (y ∷ ys) rest h = elim (Bool-cases (same y k)) [
    | inl hit ↦ ground (arith, same_refl x)
    | inr miss ↦ ground (arith, contains-after k x ys rest)
  ]

  -- In a list of distinct keys the key that follows `k` is followed by the rest.
  pub after-next :
      (k x : K) (ks rest : List K) → Distinct ks → after k ks ≡ x ∷ rest → after x ks ≡ rest
  after-next k x [] rest d h = cc
  after-next k x (y ∷ ys) rest d h = elim (Bool-cases (same y k)) [
    | inl hit ↦ ground (arith, same_refl x, e.is_same_iff y x)
    | inr miss ↦
        ground (arith, contains-after k x ys rest, after-next k x ys rest d.1, e.is_same_iff y x)
  ]
