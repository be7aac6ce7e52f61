-- ===== src/Bitesize/User/Print.antt =====
-- What `print_log2_hist_for_pid` prints for a process.
use prog_playground.Prelude.{
  ℕ, suc, ◌-◌, ◌*◌, ◌^◌, ◌<◌, ◌≡◌, refl, ◌∙◌, ap, true, false, some, List, [], ◌∷◌, arith,
  if◌then◌else◌, ◌==◌, Bool-cases, Option-cases, inl, inr, same_refl, contains,
}
use prog_playground.BpfMap.{BpfMap, is_some, for_each_key, fold_keys}
use prog_playground.BpfMap.Walk.{for_each_key_lem}
use prog_playground.Histogram.{Hist, heading, empty_hist, tally, bound_of, max_stars}
use prog_playground.Histogram.Tally.{
  tally_all, AllBelow, total, grand_total, IsTight, tally_all-empty_hist,
}
use prog_playground.Histogram.Rows.{expected_rows, print_all_rows_lem}
use prog_playground.Bitesize.{HistKey, key_Eq, zero_key}
use prog_playground.Bitesize.Kern.Counts.{stored}
use prog_playground.Bitesize.User.{is_nonzero, scan, print_log2_hist_for_pid}

module _ (hist_map : BpfMap HistKey ℕ) where
  open hist_map use {Map, max_entries, keys, lookup, next_key, contains-keys}

  -- The indices and counts of one process, in the order of the keys.
  abbrev pub entries_of : Map → ℕ → List HistKey → List (ℕ × ℕ)
  entries_of m pid [] = []
  entries_of m pid (k ∷ ks) =
      if k.info.pid == pid
      then (k.index, stored (lookup m k)) ∷ entries_of m pid ks
      else entries_of m pid ks

  fold-scan :
      (m : Map) (pid : ℕ) (ks : List HistKey) (s : Hist)
      → ((k : HistKey) → contains k ks ≡ true → is_some (lookup m k) ≡ true)
      → fold_keys (scan hist_map m pid) ks s ≡ tally_all (entries_of m pid ks) s
  unfolding fold_keys scan tally_all
  fold-scan m pid [] s h = refl
  fold-scan m pid (k ∷ ks) s h = elim (Option-cases (lookup m k)) [
    | inl absent ↦ cc (h k (rw same_refl), ap is_some absent)
    | inr (v, there) ↦ elim (Bool-cases (k.info.pid == pid)) [
      | inr other ↦ rw (other, fold_keys, scan) (fold-scan m pid ks s (λ j p. h j (weaken j p)))
      | inl mine ↦ elim (Option-cases (tally s v k.index)) [
        | inl stop ↦ rw (mine, there, stop, fold_keys, scan, tally_all)
        | inr (s', done) ↦
            rw (mine, there, done, fold_keys, scan, tally_all)
              (fold-scan m pid ks s' (λ j p. h j (weaken j p)))
      ]
    ]
  ]
    where
      weaken : (j : HistKey) → contains j ks ≡ true → contains j (k ∷ ks) ≡ true
      weaken j p = ground arith

  -- If the all-zero key is not in the map, the indices of a process are below 62 and 38 times the
  -- sum of its counts is below 2 ^ 63, print_log2_hist_for_pid prints without undefined behaviour:
  -- rows in order from the lowest to the highest bucket bound, which enclose every bucket that is
  -- not empty, each with the sum of the map's values of that process and index, under a heading
  -- unless the highest index is 0.
  pub print_log2_hist_for_pid_lem :
      (junk : ℕ) (m : Map) (pid : ℕ)
      → contains zero_key (keys m) ≡ false
      → AllBelow 62 (entries_of m pid (keys m))
      → max_stars * grand_total (entries_of m pid (keys m)) < 2 ^ 63
      → (s : Hist) × (print_log2_hist_for_pid hist_map junk m pid
          ≡ some (
              let rows = expected_rows s (bound_of s.max_ind - s.min_ind) s.min_ind in
              if is_nonzero s.max_ind then heading ∷ rows else rows))
        × IsTight 62 s
        × ((i : ℕ) → s.counts i ≡ total (entries_of m pid (keys m)) i)
  unfolding print_log2_hist_for_pid
  print_log2_hist_for_pid_lem junk m pid absent below small =
      let es = entries_of m pid (keys m) in
      let (s, done, tight, sums, top) =
        tally_all-empty_hist 62 es junk (omega arith) below (omega arith) in
      let scanned : for_each_key (suc max_entries) (next_key m) (scan hist_map m pid) zero_key
            (empty_hist junk)
          ≡ some s =
        for_each_key_lem hist_map (scan hist_map m pid) m zero_key (empty_hist junk)
        ∙ rw absent
            (fold-scan m pid (keys m) (empty_hist junk) (λ k p. rw (← contains-keys) p) ∙ done) in
      (
        s,
        rw (scanned, print_log2_hist_for_pid, print_all_rows_lem s tight (omega arith)),
        tight,
        sums,
      )
