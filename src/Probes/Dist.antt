-- ===== src/Probes/Dist.antt =====
-- What the array maps of bitehist.c and vfsreadlat.c hold in the end.
use prog_playground.Prelude.{
  ℕ, suc, ◌+◌, ◌/◌, ◌%◌, ◌^◌, ◌<◌, ◌≡◌, ◌∙◌, refl, inl, inr, Bool-cases, Bool, ◌&&◌, List, [], ◌∷◌,
  map, arith, leb, ◌==◌, ==_iff, if◌then◌else◌, nat_eq,
}
use prog_playground.BpfArray.{BpfArray, increment, value_at, value_at-increment}
use prog_playground.Log2
use prog_playground.Log2.Long.{log2l-lt}
use prog_playground.Histogram.Rows.{row_low, row_high, row_bounds-log2l}
use prog_playground.Probes.Vfsreadlat.{log2l}
use prog_playground.Probes.Counters.{do_request}

-- The range of the values that bucket `i` is printed for.
abbrev pub in_row : ℕ → ℕ → Bool
in_row i v = leb (row_low i) v && leb v (row_high i)

-- How many values of a list fall into the row.
abbrev pub occurrences : ℕ → List ℕ → ℕ
occurrences i [] = 0
occurrences i (v ∷ vs) = (if in_row i v then 1 else 0) + occurrences i vs

-- Lengths are 32 bits wide.
abbrev pub AllU32 : List ℕ → Type 0
AllU32 [] = Unit
AllU32 (n ∷ ns) = (n < 2 ^ 32) × AllU32 ns

-- Neither sum wraps.
short_index : (n i : ℕ) → i < 64 → i ≡ n → (n + 1) % 2 ^ 32 ≡ i + 1
short_index n i h e = omega arith

long_index : (n i : ℕ) → i < 64 → i ≡ (n + 32) % 2 ^ 32 → (n + 32 + 1) % 2 ^ 32 ≡ i + 1
long_index n i h e = omega arith

log2l-suc : (v : ℕ) → v < 2 ^ 64 → log2l v ≡ Log2.log2l v + 1
unfolding log2l Log2.log2l
log2l-suc v h = elim (Bool-cases (v / 2 ^ 32 % 2 ^ 32 == 0)) [
  | inl short ↦ rw short (
      short_index (Log2.log2 (v % 2 ^ 32)) (Log2.log2 (v % 2 ^ 32)) (rw short at (log2l-lt v h))
        refl)
  | inr long ↦
      rw long (long_index (Log2.log2 (v / 2 ^ 32 % 2 ^ 32)) _ (rw long at (log2l-lt v h)) refl)
]

in_row-log2l : (v j : ℕ) → v < 2 ^ 64 → in_row (suc j) v ≡ (log2l v == suc j)
in_row-log2l v j h = ground (arith, row_bounds-log2l v j h, log2l-suc v h)

module _ (dist : BpfArray 64) where
  open dist use {Array}

  -- A value is counted in its bucket, which lies in the array, and nowhere else.
  pub value_at-count :
      (v j : ℕ) (a : Array)
      → v < 2 ^ 64
      → j < 63
      → value_at dist (increment dist (log2l v) a) (suc j) ≡ (
          if in_row (suc j) v
          then (value_at dist a (suc j) + 1) % 2 ^ 64
          else value_at dist a (suc j))
  value_at-count v j a h k =
      value_at-increment dist (log2l v) (suc j) a
      ∙ ground (arith, in_row-log2l v j (omega arith), ==_iff (log2l v) (suc j))

  -- The array of bitehist.c after requests of these lengths, the last one first.
  unfoldable pub dist_after : List ℕ → Array → Array
  dist_after [] a = a
  dist_after (n ∷ older) a = do_request dist n (dist_after older a)

  -- After requests of 32-bit lengths each bucket from 1 to 63 of the array of bitehist.c has
  -- grown, modulo 2 ^ 64, by the number of requests whose kilobytes lie in the range of that
  -- bucket, if it held a 64-bit value.
  pub dist_after_lem :
      (lens : List ℕ) (a : Array) (j : ℕ)
      → AllU32 lens
      → j < 63
      → value_at dist a (suc j) < 2 ^ 64
      → value_at dist (dist_after lens a) (suc j)
        ≡ (value_at dist a (suc j) + occurrences (suc j) (map (λ n. n / 1024) lens)) % 2 ^ 64
  unfolding dist_after do_request
  dist_after_lem [] a j u k w = omega arith
  dist_after_lem (n ∷ older) a j u k w =
      value_at-count (n / 1024) j (dist_after older a) (omega (arith, u.0)) k
      ∙ ground (arith, dist_after_lem older a j u.1 k w)
