-- ===== src/BitehistArray.antt =====
-- The first global histogram, tools/BPF-tools/old/2015-03-25/bitehist_kern.c and bitehist_user.c:
-- the buckets are the elements of an array map, and each interval is printed and cleared.
pub mod Intervals
pub mod Requests
use prog_playground.Prelude.{
  ℕ, zero, suc, ◌+◌, ◌/◌, ◌^◌, ◌&&◌, Option, none, some, List, [], ◌∷◌, ◌++◌, ltb, if◌then◌else◌, ℤ,
  pos, negsuc, ltb_ℤ, pos_part, Bool,
}
use prog_playground.Log2.{log2l}
use prog_playground.BpfArray.{BpfArray, increment}
use prog_playground.Histogram.{Hist, put, Line, heading, blank, max_index, print_rows, bound_of}
use prog_playground.Bitesize.User.{is_nonzero}
use prog_playground.Bitesize.Main.{
  Arguments, Exit, usage_exit, load_error, undefined, finished, read_arguments,
}
use prog_playground.Bitehist.{value_or}

-- `int max_ind = -1; long max_value = 0; long data[MAX_INDEX] = {};`. There is no lowest index, so
-- `min_ind` stays 0.
unfoldable pub no_buckets : ℕ → Hist
no_buckets junk = record {
  counts = λ i. 0;
  value = junk;
  max_ind = negsuc 0;
  min_ind = 0;
  max_value = 0;
}

-- The loop's body after the lookup.
unfoldable pub enter : Hist → ℕ → ℕ → Hist
enter s value key = record {
  counts = put s.counts key value;
  value = value;
  max_ind = if ltb 0 value && ltb_ℤ s.max_ind (pos key) then pos key else s.max_ind;
  min_ind = s.min_ind;
  max_value = if ltb s.max_value value then value else s.max_value;
}

module _ (hist_map : BpfArray 64) where
  open hist_map use {Array, at, write}

  -- The probe; `data_len` is read from the request.
  unfoldable pub bpf_prog1 : (data_len : ℕ) → Array → Array
  bpf_prog1 data_len a = increment hist_map (log2l (data_len / 1024)) a

  -- `for (key = 0; key < MAX_INDEX; key++)` with `rounds` keys left. A count from 2 ^ 63 on, which
  -- would be read as a negative number, gives `none`.
  unfoldable pub read_keys : Array → (rounds key : ℕ) → Hist → Option Hist
  unfolding enter
  read_keys a zero key s = some s
  read_keys a (suc rounds) key s =
      let value = value_or (at a key) s.value in
      let rest = read_keys a rounds (key + 1) (enter s value key) in
      if ltb value (2 ^ 63) then rest else none

  unfoldable pub print_log2_hist : (junk : ℕ) → Array → Option (List Line)
  unfolding read_keys no_buckets
  print_log2_hist junk a = elim (read_keys a max_index 0 (no_buckets junk)) [
    | none ↦ none
    | some s ↦ elim (print_rows s (bound_of s.max_ind) 1) [
      | none ↦ none
      | some rows ↦ some (if is_nonzero s.max_ind then heading ∷ rows else rows)
    ]
  ]

  -- `value` is a null pointer, whose bytes are the new element.
  unfoldable pub clear_from : (rounds key : ℕ) → Array → Array
  clear_from zero key a = a
  clear_from (suc rounds) key a = clear_from rounds (key + 1) (write a key 0)

  unfoldable pub clear_array : Array → Array
  unfolding clear_from
  clear_array a = clear_from max_index 0 a

  unfoldable pub run_probe : List ℕ → Array → Array
  run_probe [] a = a
  run_probe (n ∷ ns) a = run_probe ns (bpf_prog1 n a)

  -- One turn of the loop of `main`; the probe sees the interval's requests during the sleep.
  unfoldable pub interval_turn : (junk : ℕ) → List ℕ → Array → Option (List Line × Array)
  interval_turn junk requests a =
      let a' = run_probe requests a in
      elim (print_log2_hist junk a') [ none ↦ none | some ls ↦ some (blank ∷ ls, clear_array a') ]

  unfoldable pub consume : ℕ → (ℕ → List ℕ) → (rounds i : ℕ) → Array → Option (List Line)
  consume junk traffic zero i a = some []
  consume junk traffic (suc rounds) i a = elim (interval_turn junk (traffic i) a) [
    | none ↦ none
    | some (ls, a') ↦ elim (consume junk traffic rounds (i + 1) a') [
      | none ↦ none
      | some rest ↦ some (ls ++ rest)
    ]
  ]

  -- The options are read as `main` of bitesize_user.c reads them.
  unfoldable pub main : ℕ → Arguments → Bool → (ℕ → List ℕ) → Array → Exit
  main junk args load_fails traffic a = elim (read_arguments args) [
    | none ↦ usage_exit
    | some settings ↦
        if load_fails
        then load_error
        else elim (consume junk traffic (pos_part settings.count) 0 a) [
          | none ↦ undefined
          | some ls ↦ finished ls []
        ]
  ]

  -- The handler of the interrupt.
  unfoldable pub int_exit : ℕ → Array → Exit
  int_exit junk a = elim (print_log2_hist junk a) [
    | none ↦ undefined
    | some ls ↦ finished (blank ∷ ls) []
  ]
