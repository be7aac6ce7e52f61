-- ===== src/Bitesize/User.antt =====
-- The reading side, bitesize_user.c: the walks over the map and the printed histograms.
pub mod Clear
pub mod Print
pub mod Tasks
use prog_playground.Prelude.{
  ℕ, zero, suc, ◌+◌, ◌-◌, Bool, true, false, ◌||◌, Option, none, some, List, [], ◌∷◌, ◌++◌, length,
  ltb, ◌==◌, if◌then◌else◌, ℤ, pos, negsuc,
}
use prog_playground.BpfMap.{BpfMap, for_each_key}
use prog_playground.Histogram.{Hist, Line, heading, task_line, empty_hist, tally, print_all_rows}
use prog_playground.Bitesize.{TaskInfo, HistKey, key_Eq, zero_key}

abbrev pub max_tasks : ℕ
max_tasks = 1024

-- A lookup that fails leaves `value` as it was.
abbrev pub value_or : Option ℕ → ℕ → ℕ
value_or none old = old
value_or (some v) old = v

-- `if (max_ind)`
abbrev pub is_nonzero : ℤ → Bool
is_nonzero (pos zero) = false
is_nonzero (pos (suc n)) = true
is_nonzero (negsuc n) = true

-- The search `for (i = 0; i < task_cnt; i++) if (tasks[i].pid == next_key.info.pid) found = 1;`
unfoldable pub found : List TaskInfo → ℕ → Bool
found [] pid = false
found (t ∷ ts) pid = t.pid == pid || found ts pid

-- The first loop's body of `print_log2_hists`; `tasks[1024]` is overrun by a further task.
unfoldable pub add_task : List TaskInfo → HistKey → Option (List TaskInfo)
unfolding found
add_task tasks k =
    if found tasks k.info.pid
    then some tasks
    else if ltb (length tasks) max_tasks
    then some (tasks ++ k.info ∷ [])
    else none

module _ (hist_map : BpfMap HistKey ℕ) where
  open hist_map use {Map, max_entries, lookup, delete, next_key}

  -- The loop's body of `print_log2_hist_for_pid`.
  unfoldable pub scan : Map → ℕ → Hist → HistKey → Option Hist
  scan m pid s k =
      if k.info.pid == pid then tally s (value_or (lookup m k) s.value) k.index else some s

  -- `junk` is the uninitialised `value`.
  unfoldable pub print_log2_hist_for_pid : ℕ → Map → ℕ → Option (List Line)
  print_log2_hist_for_pid junk m pid =
      elim (for_each_key (suc max_entries) (next_key m) (scan m pid) zero_key (empty_hist junk)) [
        | none ↦ none
        | some s ↦ elim (print_all_rows s) [
          | none ↦ none
          | some rows ↦ some (if is_nonzero s.max_ind then heading ∷ rows else rows)
        ]
      ]

  unfoldable pub print_tasks : ℕ → Map → List TaskInfo → Option (List Line)
  print_tasks junk m [] = some []
  print_tasks junk m (t ∷ ts) = elim (print_log2_hist_for_pid junk m t.pid) [
    | none ↦ none
    | some ls ↦ elim (print_tasks junk m ts) [
      | none ↦ none
      | some rest ↦ some (task_line t.pid t.uid t.comm ∷ (ls ++ rest))
    ]
  ]

  unfoldable pub print_log2_hists : ℕ → Map → Option (List Line)
  print_log2_hists junk m =
      elim (for_each_key (suc max_entries) (next_key m) add_task zero_key []) [
        | none ↦ none
        | some tasks ↦ print_tasks junk m tasks
      ]

  -- The loop of `clear_hash`; `none` means that the fuel ran out.
  unfoldable pub clear_from : ℕ → Map → HistKey → Option Map
  clear_from zero m key = none
  clear_from (suc fuel) m key = elim (next_key m key) [
    | none ↦ some m
    | some k ↦ clear_from fuel (delete m k) k
  ]

  unfoldable pub clear_hash : Map → Option Map
  clear_hash m = clear_from (suc max_entries) m zero_key
