-- ===== src/Histogram.antt =====
-- The log2 histogram that the tools print, as in
-- tools/BPF-tools/new/2019-05-21/bitesize_user.c: the bar of stars, the tally of one map entry and
-- the rows. The `long` values of the C code are kept as natural numbers below 2 ^ 63; an
-- operation that would leave that range, divide by 0, or leave an array gives `none`.
pub mod Stars
pub mod Tally
pub mod Rows
use prog_playground.Prelude.{
  ℕ, zero, suc, ◌+◌, ◌-◌, ◌*◌, ◌/◌, ◌^◌, Bool, true, false, ◌&&◌, Option, none, some, List, [], ◌∷◌,
  ◌++◌, replicate, ltb, ◌==◌, if◌then◌else◌, ℤ, pos, negsuc, ltb_ℤ,
}

abbrev pub max_index : ℕ
max_index = 64

abbrev pub max_stars : ℕ
max_stars = 38

abbrev pub star : ℕ
star = b'*'

abbrev pub plus : ℕ
plus = b'+'

abbrev pub int_max : ℕ
int_max = 2 ^ 31 - 1

-- `stars`, whose result is the text in `str` before the final NUL.
-- `i < (width * val / max) - 1` is read without subtraction, since the left side may be -1.
unfoldable pub star_loop : ℕ → ℕ → ℕ → ℕ → ℕ
star_loop zero scaled width i = i
star_loop (suc fuel) scaled width i =
    let rest = star_loop fuel scaled width (i + 1) in
    if ltb (i + 1) scaled && ltb (i + 1) width then rest else i

-- `str[i - 1] = '+'`, undefined if `i` is 0.
unfoldable pub mark_overflow : ℕ → Option (List ℕ)
mark_overflow zero = none
mark_overflow (suc i) = some (replicate i star ++ plus ∷ [])

unfoldable pub stars : ℕ → ℕ → ℕ → Option (List ℕ)
unfolding star_loop mark_overflow
stars val max width =
    if max == 0
    then none
    else if ltb (width * val) (2 ^ 63)
    then (let i = star_loop width (width * val / max) width 0 in
        if ltb max val then mark_overflow i else some (replicate i star))
    else none

-- The variables of `print_log2_hist_for_pid`: `value` keeps its last content if a lookup fails.
pub record Hist : Type 0 where
  pub counts : ℕ → ℕ
  pub value : ℕ
  pub max_ind : ℤ
  pub min_ind : ℕ
  pub max_value : ℕ

abbrev pub put : (ℕ → ℕ) → ℕ → ℕ → ℕ → ℕ
put a i v j = if j == i then v else a j

-- `long data[MAX_INDEX] = {}; int max_ind = -1, min_ind = INT_MAX - 1; long max_value = 0;`
unfoldable pub empty_hist : ℕ → Hist
empty_hist junk = record {
  counts = λ i. 0;
  value = junk;
  max_ind = negsuc 0;
  min_ind = int_max - 1;
  max_value = 0;
}

-- From `data[ind] += value` to the update of `max_value`.
unfoldable pub tally : Hist → ℕ → ℕ → Option Hist
tally s value ind =
    let total = s.counts ind + value in
    if ltb ind max_index && ltb total (2 ^ 63)
    then some (record {
      counts = put s.counts ind total;
      value = value;
      max_ind = if ltb 0 value && ltb_ℤ s.max_ind (pos ind) then pos ind else s.max_ind;
      min_ind = if ltb 0 value && ltb ind s.min_ind then ind else s.min_ind;
      max_value = if ltb s.max_value total then total else s.max_value;
    })
    else none

-- What the tools print.
pub data Line : Type 0 where
  heading : Line
  row : ℕ → ℕ → ℕ → List ℕ → Line
  task_line : ℕ → ℕ → List ℕ → Line
  clock : Line
  blank : Line

-- `low = (1l << i) >> 1; high = (1l << i) - 1; if (low == high) low--;`, where `i` is at least 1;
-- `1l << i` is undefined from 63 on.
unfoldable pub row_range : ℕ → Option (ℕ × ℕ)
row_range i =
    if ltb i 63
    then (let low = 2 ^ i / 2 in
        let high = 2 ^ i - 1 in some ((if low == high then low - 1 else low), high))
    else none

-- The body of the printing loop at `i`.
unfoldable pub print_row : Hist → ℕ → Option Line
print_row s i = elim (stars (s.counts (i - 1)) s.max_value max_stars) [
  | none ↦ none
  | some bar ↦ elim (row_range i) [
    | none ↦ none
    | some (low, high) ↦ some (row low high (s.counts (i - 1)) bar)
  ]
]

-- `rounds` iterations from `i` on.
unfoldable pub print_rows : Hist → ℕ → ℕ → Option (List Line)
print_rows s zero i = some []
print_rows s (suc rounds) i = elim (print_row s i) [
  | none ↦ none
  | some l ↦ elim (print_rows s rounds (i + 1)) [ none ↦ none | some ls ↦ some (l ∷ ls) ]
]

-- `max_ind + 1`, which is never negative.
abbrev pub bound_of : ℤ → ℕ
bound_of (pos n) = n + 1
bound_of (negsuc n) = 0

-- `for (i = min_ind + 1; i <= max_ind + 1; i++)`
unfoldable pub print_all_rows : Hist → Option (List Line)
print_all_rows s = print_rows s (bound_of s.max_ind + 1 - (s.min_ind + 1)) (s.min_ind + 1)
