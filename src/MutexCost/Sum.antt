-- ===== src/MutexCost/Sum.antt =====
-- Sums over the threads.
use prog_playground.Prelude.{
  ℕ, zero, suc, ◌+◌, ◌*◌, ◌≤◌, ◌<◌, ◌≡◌, refl, ap, arith, ◌==◌, ==_iff, Bool-cases, inl, inr,
  if◌then◌else◌,
}
use prog_playground.MutexCost.{assign}

abbrev pub sum : ℕ → (ℕ → ℕ) → ℕ
sum zero f = 0
sum (suc n) f = f n + sum n f

sum-outside : (n w a : ℕ) (f : ℕ → ℕ) → n ≤ w → sum n (assign f w a) ≡ sum n f
sum-outside zero w a f h = refl
sum-outside (suc n) w a f h = ground (arith, sum-outside n w a f (omega arith), ==_iff n w)

pub sum-assign : (n w a : ℕ) (f : ℕ → ℕ) → w < n → sum n (assign f w a) + f w ≡ sum n f + a
sum-assign zero w a f h = absurd (omega arith)
sum-assign (suc n) w a f h = elim (Bool-cases (n == w)) [
  | inl e ↦ omega (
    arith,
    sum-outside n w a f (omega (arith, (==_iff n w).0 e)),
    ap f ((==_iff n w).0 e),
    ap (λ b. if b then a else f n) e,
  )
  | inr e ↦
      omega
        (arith, sum-assign n w a f (ground (arith, ==_iff n w)), ap (λ b. if b then a else f n) e)
]

pub sum-constant : (n a : ℕ) → sum n (λ w. a) ≡ n * a
sum-constant zero a = omega arith
sum-constant (suc n) a = omega (arith, sum-constant n a)

pub sum-zero : (n : ℕ) (f : ℕ → ℕ) → ((w : ℕ) → w < n → f w ≡ 0) → sum n f ≡ 0
sum-zero zero f h = refl
sum-zero (suc n) f h = omega (arith, h n (omega arith), sum-zero n f (λ w b. h w (omega arith)))
