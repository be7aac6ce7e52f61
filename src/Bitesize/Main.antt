-- ===== src/Bitesize/Main.antt =====
-- `main` of bitesize_user.c: its options, and the loop that prints and clears once an interval.
-- Each interval's requests are an argument, and so is what the loader answers.
use prog_playground.Prelude.{
  ℕ, zero, suc, ◌+◌, ◌-◌, Bool, false, Option, none, some, List, [], ◌∷◌, ◌++◌, if◌then◌else◌, ◌==◌,
  ℤ, pos, negsuc, pos_part,
}
use prog_playground.BpfMap.{BpfMap}
use prog_playground.Histogram.{Line, clock, blank, int_max}
use prog_playground.Bitesize.{HistKey, key_Eq}
use prog_playground.Bitesize.Kern.{Event, run_probe}
use prog_playground.Bitesize.User.{is_nonzero, print_log2_hists, clear_hash}

-- The option letters that `getopt` finds, and the operands behind them as `atoi` reads them.
pub record Arguments : Type 0 where
  pub options : List ℕ
  pub operands : List ℤ

-- What `unload_bpf` calls: three times `close`, and a command that empties the list of kprobes.
pub data Unload : Type 0 where
  close_map close_prog close_event clear_kprobes : Unload

abbrev pub unload_bpf : List Unload
unload_bpf = close_map ∷ close_prog ∷ close_event ∷ clear_kprobes ∷ []

-- `usage_exit` and `load_error` leave with status 1, `finished` with 0.
pub data Exit : Type 0 where
  usage_exit load_error undefined : Exit
  finished : List Line → List Unload → Exit

pub record Settings : Type 0 where
  pub interval : ℤ
  pub count : ℤ

abbrev pub default_settings : Settings
default_settings = record { interval = pos 5; count = pos (int_max - 1) }

-- `none` is a call of `usage`.
unfoldable pub read_operands : List ℤ → Option Settings
read_operands [] = some default_settings
read_operands (iv ∷ []) =
    if is_nonzero iv then some (record default_settings { interval = iv }) else none
read_operands (iv ∷ ct ∷ rest) =
    if is_nonzero iv then some (record { interval = iv; count = ct }) else none

-- Every option letter, known or not, leads to `usage`.
unfoldable pub read_arguments : Arguments → Option Settings
unfolding read_operands
read_arguments args = elim args.options [ [] ↦ read_operands args.operands | o ∷ os ↦ none ]

abbrev pub is_one : ℤ → Bool
is_one (pos n) = n == 1
is_one (negsuc n) = false

module _ (hist_map : BpfMap HistKey ℕ) where
  open hist_map use {Map}

  -- One turn of the loop: the probe sees the interval's requests while `main` sleeps.
  unfoldable pub interval_turn : ℕ → ℤ → List Event → Map → Option (List Line × Map)
  interval_turn junk count es m =
      let m1 = run_probe hist_map es m in
      elim (print_log2_hists hist_map junk m1) [
        | none ↦ none
        | some ls ↦ elim (clear_hash hist_map m1) [
          | none ↦ none
          | some m2 ↦ some ((if is_one count then [] else clock ∷ []) ++ (ls ++ blank ∷ []), m2)
        ]
      ]

  -- `for (i = 0; i < count; i++)` with `rounds` turns left; `traffic i` are the requests of turn `i`.
  unfoldable pub consume : ℕ → ℤ → (ℕ → List Event) → ℕ → ℕ → Map → Option (List Line × Map)
  consume junk count traffic zero i m = some ([], m)
  consume junk count traffic (suc rounds) i m = elim (interval_turn junk count (traffic i) m) [
    | none ↦ none
    | some (ls, m') ↦ elim (consume junk count traffic rounds (i + 1) m') [
      | none ↦ none
      | some (rest, m'') ↦ some (ls ++ rest, m'')
    ]
  ]

  -- The handler of SIGINT, when it runs while `main` sleeps.
  unfoldable pub int_exit : ℕ → Map → Exit
  int_exit junk m = elim (print_log2_hists hist_map junk m) [
    | none ↦ undefined
    | some ls ↦ finished (blank ∷ ls) unload_bpf
  ]

  unfoldable pub main : ℕ → Arguments → Bool → (ℕ → List Event) → Map → Exit
  main junk args load_fails traffic m = elim (read_arguments args) [
    | none ↦ usage_exit
    | some settings ↦
        if load_fails
        then load_error
        else elim (consume junk settings.count traffic (pos_part settings.count) 0 m) [
          | none ↦ undefined
          | some (ls, m') ↦ finished ls unload_bpf
        ]
  ]
