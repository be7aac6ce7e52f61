-- ===== src/Histogram/Rows.antt =====
-- The rows that are printed: one for each index between the bounds, with the values whose index
-- it is.
use Prim.Native.Nat.{min}
use native.Mathlib.Nat.{pow-suc, one-le-pow}
use prog_playground.Prelude.{
  ℕ, zero, suc, ◌+◌, ◌-◌, ◌*◌, ◌/◌, ◌^◌, ◌≤◌, ◌<◌, ◌≡◌, ◌↔◌, arith, refl, some, List, [], ◌∷◌,
  replicate, lt→ltb, ltb, ltb→lt, not_ltb→le, Bool-cases, inl, inr, ◌==◌, if◌then◌else◌,
}
use prog_playground.Log2.{log2l}
use prog_playground.Log2.Long.{log2l_iff, log2l-zero}
use prog_playground.Histogram.{
  Hist, Line, row, star, row_range, print_row, print_rows, print_all_rows, max_stars, bound_of,
}
use prog_playground.Histogram.Stars.{stars_lem}
use prog_playground.Histogram.Tally.{IsTight}

-- The bounds of the row of an index.
unfoldable pub row_low : ℕ → ℕ
row_low i = let low = 2 ^ i / 2 in let high = 2 ^ i - 1 in if low == high then low - 1 else low

unfoldable pub row_high : ℕ → ℕ
row_high i = 2 ^ i - 1

row_range_lem : (i : ℕ) → i < 62 → row_range (suc i) ≡ some (row_low (suc i), row_high (suc i))
unfolding row_range row_low row_high
row_range_lem i b = rw (lt→ltb (suc i) 63 (omega arith), row_range) refl

low_one : row_low 1 ≡ 0
unfolding row_low
low_one = refl

low_suc : (i : ℕ) → row_low (suc (suc i)) ≡ 2 ^ suc i
unfolding row_low
low_suc i = ground (arith, pow-suc 2 i, pow-suc 2 (suc i), one-le-pow i 2)

high_suc : (i : ℕ) → row_high i + 1 ≡ 2 ^ i
unfolding row_high
high_suc i = omega (arith, one-le-pow i 2)

pub row_bounds-log2l :
    (v i : ℕ) → v < 2 ^ 64 → ((row_low (suc i) ≤ v) × (v ≤ row_high (suc i))) ↔ (log2l v ≡ i)
row_bounds-log2l zero zero h =
    ((λ r. log2l-zero), λ e. (omega (arith, low_one), omega (arith, high_suc 1)))
row_bounds-log2l zero (suc i) h = (
  (λ r. absurd (omega (arith, low_suc i, one-le-pow (suc i) 2, r.0))),
  λ e. absurd (omega (arith, log2l-zero)),
)
row_bounds-log2l (suc v) zero h = (
  (λ r. (log2l_iff (suc v) zero (omega arith) h).1 (omega arith, omega (arith, high_suc 1, r.1))),
  λ e.
      let b = (log2l_iff (suc v) zero (omega arith) h).0 e in
      (omega (arith, low_one), omega (arith, high_suc 1, b.1)),
)
row_bounds-log2l (suc v) (suc i) h = (
  (λ r.
      (log2l_iff (suc v) (suc i) (omega arith) h).1
        (omega (arith, low_suc i, r.0), omega (arith, high_suc (suc (suc i)), r.1))),
  λ e.
      let b = (log2l_iff (suc v) (suc i) (omega arith) h).0 e in
      (omega (arith, low_suc i, b.0), omega (arith, high_suc (suc (suc i)), b.1)),
)

-- For an index below 62 the printed row has a range, without undefined behaviour, and a 64-bit
-- value lies in it exactly if the kernel's log2l gives the value that index.
pub row_range-log2l :
    (v i : ℕ)
    → v < 2 ^ 64
    → i < 62
    → (range : ℕ × ℕ) × (row_range (suc i) ≡ some range)
      × (((range.0 ≤ v) × (v ≤ range.1)) ↔ (log2l v ≡ i))
row_range-log2l v i h b =
    ((row_low (suc i), row_high (suc i)), row_range_lem i b, row_bounds-log2l v i h)

-- The row of index `i`: its range, its count, and a bar in proportion to the highest count.
abbrev pub expected_row : Hist → ℕ → Line
expected_row s i =
    row (row_low (suc i)) (row_high (suc i)) (s.counts i)
      (replicate (min (max_stars * s.counts i / s.max_value - 1) (max_stars - 1)) star)

abbrev pub expected_rows : Hist → ℕ → ℕ → List Line
expected_rows s zero i = []
expected_rows s (suc rounds) i = expected_row s i ∷ expected_rows s rounds (suc i)

print_row_lem :
    (n : ℕ) (s : Hist) (i : ℕ)
    → IsTight n s
    → 0 < s.max_value
    → max_stars * s.max_value < 2 ^ 63
    → i < 62
    → print_row s (suc i) ≡ some (expected_row s i)
unfolding print_row
print_row_lem n s i t p small b =
    let bar = stars_lem (s.counts i) s.max_value max_stars p (t.peak i) (omega (arith, t.peak i)) in
    let back : suc i - 1 ≡ i = omega arith in rw (print_row, back, bar, row_range_lem i b, back)

print_rows_lem :
    (n : ℕ) (s : Hist) (rounds i : ℕ)
    → IsTight n s
    → 0 < s.max_value
    → max_stars * s.max_value < 2 ^ 63
    → i + rounds ≤ 62
    → print_rows s rounds (suc i) ≡ some (expected_rows s rounds i)
unfolding print_rows
print_rows_lem n s zero i t p small b = refl
print_rows_lem n s (suc rounds) i t p small b =
    let on : suc i + 1 ≡ suc (suc i) = omega arith in
    rw (
      print_rows,
      print_row_lem n s i t p small (omega arith),
      on,
      print_rows_lem n s rounds (suc i) t p small (omega arith),
    )

-- With loop bounds that enclose the buckets that are not empty and are at most 62, and 38 times
-- the maximum below 2 ^ 63, the printing loop ends without undefined behaviour and prints one row,
-- with its range, count and bar, for each index from the lowest bound to the highest, in order.
pub print_all_rows_lem :
    (s : Hist)
    → IsTight 62 s
    → max_stars * s.max_value < 2 ^ 63
    → print_all_rows s ≡ some (expected_rows s (bound_of s.max_ind - s.min_ind) s.min_ind)
unfolding print_all_rows print_rows
print_all_rows_lem s t small = elim (Bool-cases (ltb s.min_ind (bound_of s.max_ind))) [
  | inl some_rows ↦
      let above = ltb→lt s.min_ind (bound_of s.max_ind) some_rows in
      rw (rounds, start)
        (print_rows_lem 62 s (bound_of s.max_ind - s.min_ind) s.min_ind t (t.live (omega arith))
          small (omega (arith, t.capped)))
  | inr no_rows ↦
      let below = not_ltb→le s.min_ind (bound_of s.max_ind) no_rows in
      let none_left : bound_of s.max_ind - s.min_ind ≡ 0 = omega arith in rw (rounds, none_left)
]
  where
    rounds : bound_of s.max_ind + 1 - (s.min_ind + 1) ≡ bound_of s.max_ind - s.min_ind
    rounds = omega arith

    start : s.min_ind + 1 ≡ suc s.min_ind
    start = omega arith
