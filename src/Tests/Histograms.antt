-- ===== src/Tests/Histograms.antt =====
-- Inputs for the histograms and their maps.
use prog_playground.Prelude.{
  ℕ, ◌-◌, ◌^◌, ◌≤◌, ◌<◌, ◌≡◌, ◌≢◌, ◌⊎◌, ◌↔◌, inl, refl, arith, false, some, List, [], ◌∷◌, ℤ, pos,
  if◌then◌else◌, nat_eq,
}
use prog_playground.Log2.{log2l}
use prog_playground.Log2.Long.{log2l_iff}
use prog_playground.BpfMap.{BpfMap, for_each_key}
use prog_playground.BpfMap.Assoc.{Table, assoc_map}
use prog_playground.Histogram.{Hist, heading, star, stars, bound_of, row_range}
use prog_playground.Histogram.Tally.{total, IsTight}
use prog_playground.Histogram.Rows.{expected_rows, row_range-log2l}
use prog_playground.Bitesize.{TaskInfo, HistKey, key_Eq, zero_key}
use prog_playground.Bitesize.Kern.{Event, run_probe}
use prog_playground.Bitesize.Kern.Counts.{occurrences, count_of}
use prog_playground.Bitesize.User.{found, add_task, is_nonzero, print_log2_hist_for_pid, clear_hash}
use prog_playground.Bitesize.User.Print.{print_log2_hist_for_pid_lem}
use prog_playground.Bitesize.User.Tasks.{has_pid, DistinctPids, collect_tasks_lem}
use prog_playground.Bitesize.Main.{Arguments, usage_exit, main}
use prog_playground.Bitesize.Interval.{main-usage_iff, interval_counts}
use prog_playground.Bitehist
use prog_playground.Bitehist.Print

log2l_values : (log2l 0 ≡ 0) × (log2l 1 ≡ 0) × (log2l 1023 ≡ 9) × (log2l (2 ^ 40) ≡ 40)
unfolding log2l
log2l_values = (refl, refl, refl, refl)

log2l_iff_example : (log2l 1000 ≡ 9) ↔ ((2 ^ 9 ≤ 1000) × (1000 < 2 ^ 10))
log2l_iff_example = log2l_iff 1000 9 (omega arith) (omega arith)

row_range-log2l_example :
    (range : ℕ × ℕ) × (row_range 4 ≡ some range)
    × (((range.0 ≤ 12) × (12 ≤ range.1)) ↔ (log2l 12 ≡ 3))
row_range-log2l_example = row_range-log2l 12 3 (omega arith) (omega arith)

three_stars : stars 1 9 38 ≡ some (star ∷ star ∷ star ∷ [])
unfolding stars
three_stars = refl

abbrev two_entries : List (ℕ × ℕ)
two_entries = (3, 5) ∷ (2, 1) ∷ []

abbrev hist_map : BpfMap HistKey ℕ
hist_map = assoc_map 1024

abbrev tiny_map : BpfMap HistKey ℕ
tiny_map = assoc_map 1

abbrev task : ℕ → TaskInfo
task pid = record { pid = pid; uid = 0; comm = b'd' ∷ b'd' ∷ [] }

abbrev key_of : ℕ → ℕ → HistKey
key_of pid index = record { info = task pid; index = index }

-- Two processes, one of them with two buckets.
abbrev busy : Table HistKey ℕ 1024
busy = record {
  entries = (key_of 7 3, 5) ∷ (key_of 8 1, 2) ∷ (key_of 7 2, 1) ∷ [];
  distinct = (refl, (refl, (refl, tt)));
  small = omega arith;
}

print_log2_hist_for_pid_lem_example :
    (s : Hist) × (print_log2_hist_for_pid hist_map 0 busy 7
      ≡ some (
          let rows = expected_rows s (bound_of s.max_ind - s.min_ind) s.min_ind in
          if is_nonzero s.max_ind then heading ∷ rows else rows))
    × IsTight 62 s
    × ((i : ℕ) → s.counts i ≡ total ((3, 5) ∷ (2, 1) ∷ []) i)
print_log2_hist_for_pid_lem_example =
    print_log2_hist_for_pid_lem hist_map 0 busy 7 refl (omega arith) (omega arith)

collect_tasks_lem_example :
    (ts : List TaskInfo) × (for_each_key 1025 (hist_map.next_key busy) add_task zero_key []
      ≡ some ts)
    × DistinctPids ts
    × ((pid : ℕ) → found ts pid ≡ has_pid pid (key_of 7 3 ∷ key_of 8 1 ∷ key_of 7 2 ∷ []))
collect_tasks_lem_example = collect_tasks_lem hist_map busy (omega arith) refl

abbrev request : Event
request = record { data_len = 8192; pid_tgid = 7; uid_gid = 0; comm = b'd' ∷ b'd' ∷ [] }

interval_counts_example :
    (m' : Table HistKey ℕ 1024) × (clear_hash hist_map busy ≡ some m')
    × (count_of hist_map (run_probe hist_map (request ∷ request ∷ []) m') (key_of 7 3)
        ≡ occurrences (key_of 7 3) (request ∷ request ∷ []))
interval_counts_example =
    interval_counts hist_map busy (request ∷ request ∷ []) (key_of 7 3) (inl refl) (omega arith)
      (omega arith)

abbrev full : Table HistKey ℕ 1
full = record { entries = (key_of 8 1, 2) ∷ []; distinct = (refl, tt); small = omega arith }

abbrev verbose : Arguments
verbose = record { options = b'v' ∷ []; operands = pos 1 ∷ [] }

main-usage_iff_example :
    (main hist_map 0 verbose false (λ i. []) busy ≡ usage_exit)
    ↔ ((verbose.options ≢ []) ⊎ ((rest : List ℤ) × (verbose.operands ≡ pos 0 ∷ rest)))
main-usage_iff_example = main-usage_iff hist_map 0 verbose false (λ i. []) busy

abbrev index_map : BpfMap ℕ ℕ
index_map = assoc_map 1024

abbrev no_small : Table ℕ ℕ 1024
no_small = record {
  entries = (3, 4) ∷ (1, 9) ∷ [];
  distinct = (refl, (refl, tt));
  small = omega arith;
}

print_log2_hist_complete_example :
    (s : Hist) × (Bitehist.print_log2_hist index_map 0 no_small
      ≡ some (
          let rows = expected_rows s (bound_of s.max_ind - s.min_ind) s.min_ind in
          if Bitehist.is_nonneg s.max_ind then heading ∷ rows else rows))
    × IsTight 62 s
    × ((i : ℕ) → s.counts i ≡ Print.count_of index_map no_small i)
print_log2_hist_complete_example =
    Print.print_log2_hist_complete index_map 0 no_small refl (omega arith) (omega arith)

-- The entry of index 0 is there, with five requests.
abbrev with_small : Table ℕ ℕ 1024
with_small = record {
  entries = (3, 4) ∷ (0, 5) ∷ (1, 9) ∷ [];
  distinct = (refl, (refl, (refl, tt)));
  small = omega arith;
}

print_log2_hist_omits_zero_example :
    (s : Hist) × (Bitehist.print_log2_hist index_map 0 with_small
      ≡ some (
          let rows = expected_rows s (bound_of s.max_ind - s.min_ind) s.min_ind in
          if Bitehist.is_nonneg s.max_ind then heading ∷ rows else rows))
    × (s.counts 0 ≡ 0)
print_log2_hist_omits_zero_example =
    Print.print_log2_hist_omits_zero index_map 0 with_small (omega arith) (omega arith)
