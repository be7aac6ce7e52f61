-- ===== src/Bitehist.antt =====
-- The global histogram, tools/BPF-tools/new/2019-05-21/bitehist_kern.c and bitehist_user.c: the key
-- of an entry is the bucket index alone.
pub mod Print
use prog_playground.Prelude.{
  ℕ, suc, ◌+◌, ◌-◌, ◌/◌, ◌%◌, ◌^◌, Bool, true, false, Option, none, some, List, [], ◌∷◌, ◌++◌, ltb,
  if◌then◌else◌, ℤ, pos, negsuc, KeyEq, nat_eq,
}
use prog_playground.Log2.{log2l}
use prog_playground.BpfMap.{BpfMap, for_each_key}
use prog_playground.Histogram.{Hist, Line, heading, blank, empty_hist, tally, print_all_rows}

abbrev pub value_or : Option ℕ → ℕ → ℕ
value_or none old = old
value_or (some v) old = v

-- `max_ind >= 0`
abbrev pub is_nonneg : ℤ → Bool
is_nonneg (pos n) = true
is_nonneg (negsuc n) = false

pub data Exit : Type 0 where
  load_error undefined : Exit
  finished : List Line → Exit

module _ (hist_map : BpfMap ℕ ℕ) where
  open hist_map use {Map, max_entries, lookup, update, next_key}

  -- The probe; `si` is the register that holds the number of bytes.
  unfoldable pub bpf_prog1 : ℕ → Map → Map
  bpf_prog1 si m =
      let key = log2l (si / 1024) in
      elim (lookup m key) [
        | some value ↦ update m key ((value + 1) % 2 ^ 64)
        | none ↦ update m key 1
      ]

  unfoldable pub scan : Map → Hist → ℕ → Option Hist
  scan m s k = tally s (value_or (lookup m k) s.value) k

  -- The walk starts at `struct hist_key key = {}`, which is the key 0.
  unfoldable pub print_log2_hist : ℕ → Map → Option (List Line)
  print_log2_hist junk m =
      elim (for_each_key (suc max_entries) (next_key m) (scan m) 0 (empty_hist junk)) [
        | none ↦ none
        | some s ↦ elim (print_all_rows s) [
          | none ↦ none
          | some rows ↦ some (if is_nonneg s.max_ind then heading ∷ rows else rows)
        ]
      ]

  -- The handler of the interrupt.
  unfoldable pub int_exit : ℕ → Map → Exit
  int_exit junk m = elim (print_log2_hist junk m) [
    | none ↦ undefined
    | some ls ↦ finished (blank ∷ ls)
  ]

  -- The probe runs while `main` sleeps; what it saw until the interrupt is an argument.
  unfoldable pub run_probe : List ℕ → Map → Map
  run_probe [] m = m
  run_probe (si ∷ sis) m = run_probe sis (bpf_prog1 si m)

  unfoldable pub main : ℕ → Bool → List ℕ → Map → Exit
  main junk load_fails requests m =
      if load_fails then load_error else int_exit junk (run_probe requests m)
