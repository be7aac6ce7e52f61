-- ===== src/Log2/Long.antt =====
-- `log2l` is the integer logarithm of a 64-bit value, and an index below 64.
use prog_playground.Prelude.{ℕ, zero, suc, ◌+◌, ◌/◌, ◌%◌, ◌^◌, ◌≤◌, ◌<◌, arith, ◌≡◌, refl}
use prog_playground.Prelude.{
  ◌==◌, false, Bool-cases, inl, inr, ◌↔◌, ==_iff, exponent_lt, exponent_unique,
}
use prog_playground.Log2.{log2, log2l}
use prog_playground.Log2.Laws.{LogFrom, LogFrom-shift16, log2-LogFrom, LogFrom-bounds, log2_bounds}

log2-lt : (v : ℕ) → 0 < v → v < 2 ^ 32 → log2 v < 32
log2-lt v p h = exponent_lt (log2 v) 32 (omega (arith, log2_bounds v p h))

LogFrom-shift32 : (v i : ℕ) → LogFrom 0 (v / 2 ^ 32) i → LogFrom 0 v (i + 32)
LogFrom-shift32 v i (e, eq, lo, hi) = LogFrom-shift16 0 16 v (v / 65536) (i + 32) refl refl (
    LogFrom-shift16 16 32 (v / 65536) (v / 2 ^ 32) (i + 32) refl (omega arith)
      (e, omega arith, lo, hi))

not_zero_pos : (n : ℕ) → (n == 0) ≡ false → 0 < n
not_zero_pos n h = ground arith

log2l-LogFrom : (v : ℕ) → 0 < v → v < 2 ^ 64 → LogFrom 0 v (log2l v)
unfolding log2l
log2l-LogFrom v p h = elim (Bool-cases (v / 2 ^ 32 % 2 ^ 32 == 0)) [
  | inl short ↦
      let small : v < 2 ^ 32 = omega (arith, (==_iff (v / 2 ^ 32 % 2 ^ 32) 0).0 short) in
      let same : v % 2 ^ 32 ≡ v = omega arith in rw (short, same) (log2-LogFrom v p small)
  | inr long ↦
      let high : v / 2 ^ 32 % 2 ^ 32 ≡ v / 2 ^ 32 = omega arith in
      let set : 0 < v / 2 ^ 32 = omega (arith, not_zero_pos (v / 2 ^ 32 % 2 ^ 32) long) in
      let wide : (log2 (v / 2 ^ 32) + 32) % 2 ^ 32 ≡ log2 (v / 2 ^ 32) + 32 =
        omega (arith, log2-lt (v / 2 ^ 32) set (omega arith)) in
      rw (long, high, wide)
        (LogFrom-shift32 v (log2 (v / 2 ^ 32)) (log2-LogFrom (v / 2 ^ 32) set (omega arith)))
]

-- The bounds of the integer logarithm hold of `log2l`.
pub log2l_bounds : (v : ℕ) → 0 < v → v < 2 ^ 64 → (2 ^ log2l v ≤ v) × (v < 2 ^ suc (log2l v))
log2l_bounds v p h = LogFrom-bounds v (log2l v) (log2l-LogFrom v p h)

pub log2l-zero : log2l 0 ≡ 0
unfolding log2l
log2l-zero = refl

-- log2l of a 64-bit value is below 64.
pub log2l-lt : (v : ℕ) → v < 2 ^ 64 → log2l v < 64
log2l-lt zero h = omega (arith, log2l-zero)
log2l-lt (suc v) h =
    exponent_lt (log2l (suc v)) 64 (omega (arith, log2l_bounds (suc v) (omega arith) h))

-- For a 64-bit value that is not 0, log2l is i exactly if the value is at least 2 ^ i and below 2
-- ^ (i + 1).
pub log2l_iff : (v i : ℕ) → 0 < v → v < 2 ^ 64 → (log2l v ≡ i) ↔ ((2 ^ i ≤ v) × (v < 2 ^ suc i))
log2l_iff v i p h = (
  (λ e. rw e at (log2l_bounds v p h)),
  λ r. let (lo, hi) = log2l_bounds v p h in exponent_unique v (log2l v) i lo hi r.0 r.1,
)
