-- ===== src/Tests/Probes.antt =====
-- Inputs for the probes that count and pair.
use prog_playground.Prelude.{
  ℕ, ◌+◌, ◌%◌, ◌^◌, ◌≡◌, refl, arith, some, ◌==◌, if◌then◌else◌, suc, List, [], ◌∷◌, nat_eq,
}
use prog_playground.BpfMap.{BpfMap}
use prog_playground.BpfMap.Assoc.{Table, assoc_map}
use prog_playground.BpfArray.{BpfArray, function_array, value_at}
use prog_playground.Probes.Pairing.{Event, started, completed}
use prog_playground.Histogram.{Hist, heading, bound_of}
use prog_playground.Histogram.Tally.{IsTight}
use prog_playground.Histogram.Rows.{expected_rows}
use prog_playground.Bitesize.User.{is_nonzero}
use prog_playground.BitehistArray
use prog_playground.BitehistArray.Requests
use prog_playground.Probes.Dist
use prog_playground.Probes.Stats
use prog_playground.Probes.Reads

abbrev start_map : BpfMap ℕ ℕ
start_map = assoc_map 4096

abbrev no_starts : Table ℕ ℕ 4096
no_starts = record { entries = []; distinct = tt; small = omega arith }

-- Two requests start, and the first one is completed.
abbrev history : List Event
history = completed 11 5000 8 1 ∷ started 12 3000 ∷ started 11 1000 ∷ []

abbrev buckets : BpfArray 64
buckets = function_array 64

abbrev counters : BpfArray 7
counters = function_array 7

abbrev calls : List Stats.Call
calls = Stats.vfs_read ∷ Stats.vfs_open ∷ Stats.vfs_read ∷ []

-- Two threads read; the return of a third was entered before the tracing.
abbrev reads : List Reads.ReadEvent
reads =
    Reads.returned 7 9000 ∷ Reads.returned 9 8000 ∷ Reads.entered 8 4000 ∷ Reads.entered 7 1000 ∷ []

state_after_lem_example :
    value_at buckets (Reads.state_after start_map buckets reads no_starts (λ i. 0)).1 4
    ≡ (value_at buckets (λ i. 0) 4 + Dist.occurrences 4 (Reads.latencies reads)) % 2 ^ 64
state_after_lem_example =
    Reads.state_after_lem start_map buckets reads no_starts (λ i. 0) 3 refl (omega arith)
      (
        omega arith,
        (omega arith, (omega arith, (omega arith, tt))),
        (
          omega arith,
          (omega arith, (omega arith, tt)),
          (omega arith, (omega arith, tt), (omega arith, tt, tt)),
        ),
      )
      (omega arith) (omega arith)

abbrev lengths : List ℕ
lengths = 8192 ∷ 4096 ∷ 9000 ∷ []

interval_printed_example :
    (s : Hist) × (BitehistArray.print_log2_hist buckets 0
        (BitehistArray.run_probe buckets lengths (BitehistArray.clear_array buckets (λ i. 9)))
      ≡ some (
          let rows = expected_rows s (bound_of s.max_ind) 0 in
          if is_nonzero s.max_ind then heading ∷ rows else rows))
    × IsTight 62 s
    × ((i : ℕ) → s.counts i ≡ Dist.occurrences (suc i) (Requests.kilobytes lengths))
interval_printed_example =
    Requests.interval_printed buckets 0 (λ i. 9) lengths
      (omega arith, (omega arith, (omega arith, tt))) (omega arith)

abbrev one_bucket : ℕ → ℕ
one_bucket i = if i == 3 then 5 else 0
