-- ===== src/Bitesize/Shown/Turn.antt =====
-- One turn of the loop of bitesize, from the requests of its interval to the printed histograms.
use prog_playground.Prelude.{
  ℕ, zero, suc, ◌-◌, ◌/◌, ◌^◌, ◌≤◌, ◌<◌, ◌≡◌, refl, ◌∙◌, ap, arith, inl, inr, Bool, true, false,
  some, List, [], ◌∷◌, ◌++◌, length, ltb, if◌then◌else◌, contains, ℤ, exponent_lt, Bool-cases,
  same_refl,
}
use prog_playground.BpfMap.{BpfMap}
use prog_playground.Log2.{log2l}
use prog_playground.Log2.Long.{log2l_bounds, log2l-zero}
use prog_playground.Histogram.{Hist, Line, heading, task_line, clock, blank, bound_of}
use prog_playground.Histogram.Tally.{AllBelow, total, grand_total, IsTight}
use prog_playground.Histogram.Rows.{expected_rows}
use prog_playground.Bitesize.{TaskInfo, HistKey, key_Eq, key_eq, key_eq_iff, zero_key}
use prog_playground.Bitesize.Kern.{Event, event_key, run_probe}
use prog_playground.Bitesize.Kern.Counts.{occurrences}
use prog_playground.Bitesize.User.{is_nonzero, found, print_tasks, print_log2_hists, max_tasks}
use prog_playground.Bitesize.User.Print.{entries_of, print_log2_hist_for_pid_lem}
use prog_playground.Bitesize.User.Tasks.{has_pid, DistinctPids, collect_tasks_lem}
use prog_playground.Bitesize.User.Clear.{clear_hash_empties}
use prog_playground.Bitesize.Main.{interval_turn, is_one}
use prog_playground.Bitesize.Shown.{
  requests, of_process, of_bucket, picked, picked_lem, requests-le,
}
use prog_playground.Bitesize.Shown.Keys.{IsEmpty, IsFilled, run_probe-IsFilled}

-- The lines of a histogram.
abbrev pub hist_lines : Hist → List Line
hist_lines s =
    let rows = expected_rows s (bound_of s.max_ind - s.min_ind) s.min_ind in
    if is_nonzero s.max_ind then heading ∷ rows else rows

-- The histogram of the requests of one process.
pub record IsHistOf (es : List Event) (pid : ℕ) (s : Hist) : Type 0 where
  pub tight : IsTight 62 s
  pub counted : (i : ℕ) → s.counts i ≡ requests (of_bucket pid i) es

-- The lines for a list of processes.
pub data Shows (es : List Event) : List TaskInfo → List Line → Type 0 where
  shows_none : Shows es [] []
  shows_task :
      (t : TaskInfo) (ts : List TaskInfo) (s : Hist) (ls : List Line)
      → IsHistOf es t.pid s
      → Shows es ts ls
      → Shows es (t ∷ ts) (task_line t.pid t.uid t.comm ∷ (hist_lines s ++ ls))

abbrev pub AllShort : List Event → Type 0
AllShort [] = Unit
AllShort (ev ∷ es) = (ev.data_len < 2 ^ 32) × AllShort es

abbrev pub clock_line : (count : ℤ) → List Line
clock_line count = if is_one count then [] else clock ∷ []

module _ (hist_map : BpfMap HistKey ℕ) where
  open hist_map use {Map, max_entries, keys, lookup, keys-Distinct}

  -- The requests of an interval: the map has room for them, their lengths are `unsigned int`, and
  -- none has the key from which the walks start.
  pub record IsUsual (es : List Event) : Type 0 where
    pub room : length es ≤ max_entries
    pub short : AllShort es
    pub not_zero : occurrences zero_key es ≡ 0

  log2l-lt_62 : (v : ℕ) → v < 2 ^ 62 → log2l v < 62
  log2l-lt_62 zero h = omega (arith, log2l-zero)
  log2l-lt_62 (suc v) h =
      exponent_lt (log2l (suc v)) 62
        (omega (arith, log2l_bounds (suc v) (omega arith) (omega arith)))

  index-lt : (es : List Event) (k : HistKey) → AllShort es → 0 < occurrences k es → k.index < 62
  index-lt [] k short h = absurd (omega arith)
  index-lt (ev ∷ es) k short h = elim (Bool-cases (key_eq (event_key ev) k)) [
    | inl same ↦
        let shifted : (event_key ev).index < 62 =
          unfold event_key in log2l-lt_62 (ev.data_len / 1024) (omega (arith, short.0)) in
        omega (arith, shifted, ap (λ j. j.index) ((key_eq_iff (event_key ev) k).0 same))
    | inr other ↦ index-lt es k short.1 (ground (arith, h, other))
  ]

  module _ (es : List Event) (m : Map) (filled : IsFilled hist_map es m) where
    -- The entries of a process, as the sums of its requests.
    total-entries_of :
        (pid i : ℕ) (ks : List HistKey)
        → total (entries_of hist_map m pid ks) i ≡ picked (of_bucket pid i) es ks
    total-entries_of pid i [] = refl
    total-entries_of pid i (k ∷ ks) = ground (arith, filled.counted k, total-entries_of pid i ks)

    grand_total-entries_of :
        (pid : ℕ) (ks : List HistKey)
        → grand_total (entries_of hist_map m pid ks) ≡ picked (of_process pid) es ks
    grand_total-entries_of pid [] = refl
    grand_total-entries_of pid (k ∷ ks) =
        ground (arith, filled.counted k, grand_total-entries_of pid ks)

    abbrev AllSeen : List HistKey → Type 0
    AllSeen [] = Unit
    AllSeen (k ∷ ks) = (0 < occurrences k es) × AllSeen ks

    entries_of-AllBelow :
        (pid : ℕ) (ks : List HistKey)
        → AllShort es
        → AllSeen ks
        → AllBelow 62 (entries_of hist_map m pid ks)
    entries_of-AllBelow pid [] short seen = tt
    entries_of-AllBelow pid (k ∷ ks) short seen =
        ground (arith, index-lt es k short seen.0, entries_of-AllBelow pid ks short seen.1)

    has_pid-picked :
        (pid : ℕ) (ks : List HistKey)
        → AllSeen ks
        → has_pid pid ks ≡ ltb 0 (picked (of_process pid) es ks)
    has_pid-picked pid [] seen = refl
    has_pid-picked pid (k ∷ ks) seen = ground (arith, has_pid-picked pid ks seen.1, seen.0)

    all_seen :
        (ks : List HistKey)
        → ((j : HistKey) → contains j ks ≡ true → 0 < occurrences j es)
        → AllSeen ks
    all_seen [] h = tt
    all_seen (k ∷ ks) h =
        (h k (ground (arith, same_refl k)), all_seen ks (λ j c. h j (ground (arith, c))))

    keys-AllSeen : AllSeen (keys m)
    keys-AllSeen = all_seen (keys m) (λ j c. ground (arith, filled.present j, c))

    picked-requests : (test : HistKey → Bool) → picked test es (keys m) ≡ requests test es
    picked-requests test =
        picked_lem test es (keys m) (keys-Distinct m) (λ j h. ground (arith, filled.present j, h))

    module _ (usual : IsUsual es) (fits : max_entries ≤ max_tasks) where
      zero_key-absent : contains zero_key (keys m) ≡ false
      zero_key-absent = ground (arith, filled.present zero_key, usual.not_zero)

      shown_tasks :
          (junk : ℕ) (ts : List TaskInfo)
          → (ls : List Line) × (print_tasks hist_map junk m ts ≡ some ls) × Shows es ts ls
      unfolding print_tasks
      shown_tasks junk [] = ([], refl, shows_none)
      shown_tasks junk (t ∷ ts) =
          let (s, printed, tight, sums) =
            print_log2_hist_for_pid_lem hist_map junk m t.pid zero_key-absent
              (entries_of-AllBelow t.pid (keys m) usual.short keys-AllSeen)
              (omega (
                arith,
                grand_total-entries_of t.pid (keys m),
                picked-requests (of_process t.pid),
                requests-le (of_process t.pid) es,
                usual.room,
                fits,
              )) in
          let (ls, rest, shows) = shown_tasks junk ts in
          let counted = λ (i : ℕ).
            sums i ∙ total-entries_of t.pid i (keys m) ∙ picked-requests (of_bucket t.pid i) in
          (
            task_line t.pid t.uid t.comm ∷ (hist_lines s ++ ls),
            rw (printed, rest, print_tasks) refl,
            shows_task t ts s ls (record { tight = tight; counted = counted }) shows,
          )

  -- The lines of one turn: the processes of the interval's requests, each once, and each with the
  -- histogram of its requests.
  pub record IsShown (es : List Event) (ls : List Line) : Type 0 where
    pub tasks : List TaskInfo
    pub distinct : DistinctPids tasks
    pub complete : (pid : ℕ) → found tasks pid ≡ ltb 0 (requests (of_process pid) es)
    pub lines : Shows es tasks ls

  -- The map of a usual interval is printed as its requests.
  pub print_log2_hists-IsShown :
      (junk : ℕ) (es : List Event) (m : Map)
      → max_entries ≤ max_tasks
      → IsFilled hist_map es m
      → IsUsual es
      → (ls : List Line) × (print_log2_hists hist_map junk m ≡ some ls) × IsShown es ls
  unfolding print_log2_hists
  print_log2_hists-IsShown junk es m fits filled usual =
      let (ts, collected, distinct, all) =
        collect_tasks_lem hist_map m fits (zero_key-absent es m filled usual fits) in
      let (ls, printed, shows) = shown_tasks es m filled usual fits junk ts in
      (
        ls,
        rw (collected, printed, print_log2_hists) refl,
        record {
          tasks = ts;
          distinct = distinct;
          complete = λ pid.
              all pid
              ∙ has_pid-picked es m filled pid (keys m) (keys-AllSeen es m filled)
              ∙ ap (ltb 0) (picked-requests es m filled (of_process pid));
          lines = shows;
        },
      )

  -- One turn that starts with an empty map prints its requests and leaves an empty map.
  pub interval_turn-IsShown :
      (junk : ℕ) (count : ℤ) (es : List Event) (m : Map)
      → max_entries ≤ max_tasks
      → IsEmpty hist_map m
      → IsUsual es
      → (ls : List Line) × (m' : Map) × (interval_turn hist_map junk count es m
          ≡ some (clock_line count ++ (ls ++ blank ∷ []), m'))
        × IsShown es ls
        × IsEmpty hist_map m'
  unfolding interval_turn
  interval_turn-IsShown junk count es m fits empty usual =
      let m1 = run_probe hist_map es m in
      let filled =
        run_probe-IsFilled hist_map es m empty usual.room (omega (arith, usual.room, fits)) in
      let (ls, printed, shown) = print_log2_hists-IsShown junk es m1 fits filled usual in
      let (m', cleared, none_left) =
        clear_hash_empties hist_map m1 (inl (zero_key-absent es m1 filled usual fits)) in
      (ls, m', rw (printed, cleared, interval_turn) refl, shown, none_left)
