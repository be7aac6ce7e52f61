-- ===== src/Bitehist/Print.antt =====
-- What the global histogram shows, and what it leaves out.
use prog_playground.Prelude.{
  ℕ, suc, ◌-◌, ◌*◌, ◌^◌, ◌<◌, ◌≡◌, refl, ◌∙◌, ap, true, false, some, List, [], ◌∷◌, arith,
  if◌then◌else◌, ◌==◌, ==_iff, Bool-cases, Option-cases, inl, inr, same_refl, contains, after,
  Distinct, nat_eq,
}
use prog_playground.BpfMap.{BpfMap, is_some, for_each_key, fold_keys, pending}
use prog_playground.BpfMap.Walk.{for_each_key_lem}
use prog_playground.Histogram.{Hist, heading, empty_hist, tally, bound_of, max_stars}
use prog_playground.Histogram.Tally.{
  tally_all, AllBelow, total, grand_total, IsTight, tally_all-empty_hist,
}
use prog_playground.Histogram.Rows.{expected_rows, print_all_rows_lem}
use prog_playground.Bitehist.{value_or, is_nonneg, scan, print_log2_hist}

contains-after-false :
    (k x : ℕ) (ks : List ℕ) → contains x ks ≡ false → contains x (after k ks) ≡ false
contains-after-false k x [] h = refl
contains-after-false k x (y ∷ ys) h = ground (arith, contains-after-false k x ys)

after_self : (k : ℕ) (ks : List ℕ) → Distinct ks → contains k (after k ks) ≡ false
after_self k [] d = refl
after_self k (y ∷ ys) d = ground (arith, after_self k ys)

pending_self : (k : ℕ) (ks : List ℕ) → Distinct ks → contains k (pending k ks) ≡ false
pending_self k ks d = elim (Bool-cases (contains k ks)) [
  | inl old ↦ rw old (after_self k ks d)
  | inr new ↦ rw new new
]

contains-after-true :
    (k x : ℕ) (ks : List ℕ) → contains x (after k ks) ≡ true → contains x ks ≡ true
contains-after-true k x [] h = h
contains-after-true k x (y ∷ ys) h = ground (arith, contains-after-true k x ys)

pending-contains : (k x : ℕ) (ks : List ℕ) → contains x (pending k ks) ≡ true → contains x ks ≡ true
pending-contains k x ks h = elim (Bool-cases (contains k ks)) [
  | inl old ↦ contains-after-true k x ks (rw old at h)
  | inr new ↦ rw new at h
]

module _ (hist_map : BpfMap ℕ ℕ) where
  open hist_map use {Map, max_entries, keys, lookup, next_key, contains-keys, keys-Distinct}

  -- The value that the map holds for an index, or 0.
  abbrev pub count_of : Map → ℕ → ℕ
  count_of m k = value_or (lookup m k) 0

  abbrev pub entries_of : Map → List ℕ → List (ℕ × ℕ)
  entries_of m [] = []
  entries_of m (k ∷ ks) = (k, count_of m k) ∷ entries_of m ks

  total_absent :
      (m : Map) (ks : List ℕ) (i : ℕ) → contains i ks ≡ false → total (entries_of m ks) i ≡ 0
  total_absent m [] i h = refl
  total_absent m (k ∷ ks) i h = ground (arith, total_absent m ks i)

  total_present :
      (m : Map) (ks : List ℕ) (i : ℕ)
      → Distinct ks
      → contains i ks ≡ true
      → total (entries_of m ks) i ≡ count_of m i
  total_present m [] i d h = cc
  total_present m (k ∷ ks) i d h = elim (Bool-cases (i == k)) [
    | inl here ↦
        let eq : i ≡ k = (==_iff i k).0 here in
        rw (here, eq) (omega (arith, total_absent m ks k d.0))
    | inr other ↦ rw other (ground (arith, total_present m ks i d.1))
  ]

  total_of_keys : (m : Map) (i : ℕ) → total (entries_of m (keys m)) i ≡ count_of m i
  total_of_keys m i = elim (Bool-cases (contains i (keys m))) [
    | inl there ↦ total_present m (keys m) i (keys-Distinct m) there
    | inr none_there ↦ elim (Option-cases (lookup m i)) [
      | inl e ↦ total_absent m (keys m) i none_there ∙ rw e
      | inr (v, e) ↦ cc (contains-keys m i, ap is_some e)
    ]
  ]

  fold-scan :
      (m : Map) (ks : List ℕ) (s : Hist)
      → ((k : ℕ) → contains k ks ≡ true → is_some (lookup m k) ≡ true)
      → fold_keys (scan hist_map m) ks s ≡ tally_all (entries_of m ks) s
  unfolding fold_keys scan tally_all
  fold-scan m [] s h = refl
  fold-scan m (k ∷ ks) s h = elim (Option-cases (lookup m k)) [
    | inl absent ↦ cc (h k (rw same_refl), ap is_some absent)
    | inr (v, there) ↦ elim (Option-cases (tally s v k)) [
      | inl stop ↦ rw (there, stop, fold_keys, scan, tally_all)
      | inr (s', done) ↦
          rw (there, done, fold_keys, scan, tally_all) (fold-scan m ks s' (λ j p. h j (weaken j p)))
    ]
  ]
    where
      weaken : (j : ℕ) → contains j ks ≡ true → contains j (k ∷ ks) ≡ true
      weaken j p = ground arith

  present : (m : Map) (k : ℕ) → contains k (pending 0 (keys m)) ≡ true → is_some (lookup m k) ≡ true
  present m k h = rw (← contains-keys) (pending-contains 0 k (keys m) h)

  -- What is printed has the rows from the lowest to the highest index that the walk from key 0
  -- meets, and the count of an index is the map's value if the walk meets it and 0 if not.
  print_log2_hist_at :
      (junk : ℕ) (m : Map)
      → AllBelow 62 (entries_of m (pending 0 (keys m)))
      → max_stars * grand_total (entries_of m (pending 0 (keys m))) < 2 ^ 63
      → (s : Hist) × (print_log2_hist hist_map junk m
          ≡ some (
              let rows = expected_rows s (bound_of s.max_ind - s.min_ind) s.min_ind in
              if is_nonneg s.max_ind then heading ∷ rows else rows))
        × IsTight 62 s
        × ((i : ℕ) → s.counts i ≡ total (entries_of m (pending 0 (keys m))) i)
  unfolding print_log2_hist
  print_log2_hist_at junk m below small =
      let es = entries_of m (pending 0 (keys m)) in
      let (s, done, tight, sums, top) =
        tally_all-empty_hist 62 es junk (omega arith) below (omega arith) in
      let scanned : for_each_key (suc max_entries) (next_key m) (scan hist_map m) 0
            (empty_hist junk)
          ≡ some s =
        for_each_key_lem hist_map (scan hist_map m) m 0 (empty_hist junk)
        ∙ (fold-scan m (pending 0 (keys m)) (empty_hist junk) (present m) ∙ done) in
      (s, rw (scanned, print_log2_hist, print_all_rows_lem s tight (omega arith)), tight, sums)

  -- If the key 0 is not in the map, the indices are below 62 and 38 times the sum of the counts is
  -- below 2 ^ 63, the global histogram is printed with the map's value for every index, its rows
  -- enclosing every index whose value is not 0.
  pub print_log2_hist_complete :
      (junk : ℕ) (m : Map)
      → contains 0 (keys m) ≡ false
      → AllBelow 62 (entries_of m (keys m))
      → max_stars * grand_total (entries_of m (keys m)) < 2 ^ 63
      → (s : Hist) × (print_log2_hist hist_map junk m
          ≡ some (
              let rows = expected_rows s (bound_of s.max_ind - s.min_ind) s.min_ind in
              if is_nonneg s.max_ind then heading ∷ rows else rows))
        × IsTight 62 s
        × ((i : ℕ) → s.counts i ≡ count_of m i)
  print_log2_hist_complete junk m absent below small =
      let all : pending 0 (keys m) ≡ keys m = rw absent in
      let (s, done, tight, sums) = print_log2_hist_at junk m (rw all below) (rw all small) in
      (s, done, tight, λ i. sums i ∙ rw all (total_of_keys m i))

  -- Within the same bounds on what the walk visits, what the global histogram prints counts 0 for
  -- bucket 0, whatever the map holds for it: the walk starts at the key 0 and so steps over that
  -- entry.
  pub print_log2_hist_omits_zero :
      (junk : ℕ) (m : Map)
      → AllBelow 62 (entries_of m (pending 0 (keys m)))
      → max_stars * grand_total (entries_of m (pending 0 (keys m))) < 2 ^ 63
      → (s : Hist) × (print_log2_hist hist_map junk m
          ≡ some (
              let rows = expected_rows s (bound_of s.max_ind - s.min_ind) s.min_ind in
              if is_nonneg s.max_ind then heading ∷ rows else rows))
        × (s.counts 0 ≡ 0)
  print_log2_hist_omits_zero junk m below small =
      let (s, done, tight, sums) = print_log2_hist_at junk m below small in
      (
        s,
        done,
        sums 0 ∙ total_absent m (pending 0 (keys m)) 0 (pending_self 0 (keys m) (keys-Distinct m)),
      )
