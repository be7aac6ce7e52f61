-- ===== src/Histogram/Tally.antt =====
-- What the variables of the histogram hold after a run of `data[ind] += value` over map entries.
use prog_playground.Prelude.{
  ℕ, ◌+◌, ◌^◌, ◌≤◌, ◌<◌, ◌≡◌, arith, refl, Option, none, some, List, [], ◌∷◌, if◌then◌else◌, ◌==◌,
  pos, ltb, ltb_ℤ, lt→ltb, ◌&&◌,
}
use prog_playground.Histogram.{Hist, put, empty_hist, tally, bound_of, max_index}

-- Entries are pairs of an index and a count.
unfoldable pub tally_all : List (ℕ × ℕ) → Hist → Option Hist
tally_all [] s = some s
tally_all ((ind, v) ∷ es) s = elim (tally s v ind) [ none ↦ none | some s' ↦ tally_all es s' ]

abbrev pub AllBelow : ℕ → List (ℕ × ℕ) → Type 0
AllBelow n [] = Unit
AllBelow n ((ind, v) ∷ es) = (ind < n) × AllBelow n es

-- The sum of the counts of index `i`, and of all counts.
abbrev pub total : List (ℕ × ℕ) → ℕ → ℕ
total [] i = 0
total ((ind, v) ∷ es) i = (if i == ind then v else 0) + total es i

abbrev pub grand_total : List (ℕ × ℕ) → ℕ
grand_total [] = 0
grand_total ((ind, v) ∷ es) = v + grand_total es

-- The loop bounds enclose every bucket that is not empty, and the scale is above every count.
pub record IsTight (n : ℕ) (s : Hist) : Type 0 where
  pub from_min : (i : ℕ) → 0 < s.counts i → s.min_ind ≤ i
  pub to_max : (i : ℕ) → 0 < s.counts i → i < bound_of s.max_ind
  pub peak : (i : ℕ) → s.counts i ≤ s.max_value
  pub live : 0 < bound_of s.max_ind → 0 < s.max_value
  pub capped : bound_of s.max_ind ≤ n

pub empty_hist-IsTight : (n junk : ℕ) → IsTight n (empty_hist junk)
unfolding empty_hist
empty_hist-IsTight n junk = grind arith

pub tally-IsTight :
    (n : ℕ) (s s' : Hist) (v ind : ℕ)
    → ind < n
    → IsTight n s
    → tally s v ind ≡ some s'
    → IsTight n s'
unfolding tally
tally-IsTight n s s' v ind below t h = record {
  from_min = λ i p. ground (arith, t.from_min i);
  to_max = λ i p. ground (arith, t.to_max i);
  peak = λ i. ground (arith, t.peak i);
  live = λ p. ground (arith, t.live, t.peak ind);
  capped = ground (arith, t.capped);
}

-- One entry adds its count to its bucket, and leaves the maximum within the sum.
tally_step :
    (s : Hist) (v ind : ℕ)
    → ind < max_index
    → s.counts ind + v < 2 ^ 63
    → (s' : Hist) × (tally s v ind ≡ some s')
      × ((i : ℕ) → s'.counts i ≡ s.counts i + (if i == ind then v else 0))
      × (s.counts ind ≤ s.max_value → s'.max_value ≤ s.max_value + v)
unfolding tally
tally_step s v ind below small = (
  record {
    counts = put s.counts ind (s.counts ind + v);
    value = v;
    max_ind = if ltb 0 v && ltb_ℤ s.max_ind (pos ind) then pos ind else s.max_ind;
    min_ind = if ltb 0 v && ltb ind s.min_ind then ind else s.min_ind;
    max_value = if ltb s.max_value (s.counts ind + v) then s.counts ind + v else s.max_value;
  },
  rw (lt→ltb ind max_index below, lt→ltb (s.counts ind + v) (2 ^ 63) small),
  (λ i. ground arith),
  (λ p. ground arith),
)

-- A run of the tally over entries whose indices are below n, with n at most 64, into a histogram
-- whose loop bounds enclose the buckets below n that are not empty, and whose counts and the old
-- maximum add up below 2 ^ 63, succeeds; every bucket grows by the counts of its index, the
-- maximum by their sum at most, and the loop bounds and the scale keep enclosing the buckets that
-- are not empty.
pub tally_all_lem :
    (n : ℕ) (es : List (ℕ × ℕ)) (s : Hist)
    → n ≤ max_index
    → AllBelow n es
    → s.max_value + grand_total es < 2 ^ 63
    → IsTight n s
    → (s' : Hist) × (tally_all es s ≡ some s')
      × IsTight n s'
      × ((i : ℕ) → s'.counts i ≡ s.counts i + total es i)
      × (s'.max_value ≤ s.max_value + grand_total es)
unfolding tally_all
tally_all_lem n [] s fits b small t = (s, refl, t, (λ i. omega arith), omega arith)
tally_all_lem n ((ind, v) ∷ es) s fits b small t =
    let (s1, done, adds, near) =
      tally_step s v ind (omega (arith, b.0)) (omega (arith, t.peak ind)) in
    let (s2, rest, tight, sums, top) =
      tally_all_lem n es s1 fits b.1 (omega (arith, near (t.peak ind)))
        (tally-IsTight n s s1 v ind b.0 t done) in
    (
      s2,
      rw (done, tally_all) rest,
      tight,
      (λ i. omega (arith, adds i, sums i)),
      omega (arith, near (t.peak ind)),
    )

-- The same from the start of a histogram.
pub tally_all-empty_hist :
    (n : ℕ) (es : List (ℕ × ℕ)) (junk : ℕ)
    → n ≤ max_index
    → AllBelow n es
    → grand_total es < 2 ^ 63
    → (s : Hist) × (tally_all es (empty_hist junk) ≡ some s)
      × IsTight n s
      × ((i : ℕ) → s.counts i ≡ total es i)
      × (s.max_value ≤ grand_total es)
unfolding empty_hist
tally_all-empty_hist n es junk fits b small =
    let (s, done, tight, sums, top) =
      tally_all_lem n es (empty_hist junk) fits b (omega arith) (empty_hist-IsTight n junk) in
    (s, done, tight, (λ i. omega (arith, sums i)), omega arith)
