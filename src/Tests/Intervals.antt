-- ===== src/Tests/Intervals.antt =====
-- Inputs for whole runs of bitesize.
use prog_playground.Prelude.{ℕ, ◌≡◌, refl, arith, false, some, List, [], ◌∷◌, pos}
use prog_playground.BpfMap.{BpfMap}
use prog_playground.BpfMap.Assoc.{Table, assoc_map}
use prog_playground.Histogram.{Line}
use prog_playground.Bitesize.{HistKey, key_Eq}
use prog_playground.Bitesize.Kern.{Event, event_key}
use prog_playground.Bitesize.Main.{Arguments, finished, unload_bpf, read_arguments, main}
use prog_playground.Bitesize.Shown.Turn.{IsUsual}
use prog_playground.Bitesize.Shown.Rounds.{Rounds, main-finished}

abbrev hist_map : BpfMap HistKey ℕ
hist_map = assoc_map 1024

abbrev no_counts : Table HistKey ℕ 1024
no_counts = record { entries = []; distinct = tt; small = omega arith }

abbrev request : ℕ → Event
request length = record { data_len = length; pid_tgid = 7; uid_gid = 0; comm = b'd' ∷ b'd' ∷ [] }

-- The same three requests in every interval.
abbrev traffic : ℕ → List Event
traffic i = request 8192 ∷ request 4096 ∷ request 8192 ∷ []

abbrev twice : Arguments
twice = record { options = []; operands = pos 1 ∷ pos 2 ∷ [] }

traffic-IsUsual : (i : ℕ) → IsUsual hist_map (traffic i)
unfolding event_key
traffic-IsUsual i = record {
  room = omega arith;
  short = (omega arith, (omega arith, (omega arith, tt)));
  not_zero = refl;
}

parsed_twice : read_arguments twice ≡ some (record { interval = pos 1; count = pos 2 })
unfolding read_arguments
parsed_twice = refl

main-finished_example :
    (ls : List Line) × (main hist_map 0 twice false traffic no_counts ≡ finished ls unload_bpf)
    × Rounds hist_map (pos 2) traffic 2 0 ls
main-finished_example =
    main-finished hist_map 0 twice (record { interval = pos 1; count = pos 2 }) traffic no_counts
      (omega arith) parsed_twice traffic-IsUsual (λ j. refl)
