-- ===== src/Bitesize/Shown/Rounds.antt =====
-- The run of bitesize from its start to its last interval.
use prog_playground.Prelude.{
  ℕ, zero, suc, arith, ◌+◌, ◌≤◌, ◌≡◌, refl, false, some, List, [], ◌∷◌, ◌++◌, ℤ, pos_part,
}
use prog_playground.BpfMap.{BpfMap}
use prog_playground.Histogram.{Line, blank}
use prog_playground.Bitesize.{HistKey, key_Eq}
use prog_playground.Bitesize.Kern.{Event, run_probe}
use prog_playground.Bitesize.User.{max_tasks}
use prog_playground.Bitesize.Main.{
  Arguments, Settings, finished, unload_bpf, read_arguments, consume, int_exit, main,
}
use prog_playground.Bitesize.Shown.Keys.{IsEmpty, run_probe-IsFilled}
use prog_playground.Bitesize.Shown.Turn.{
  IsUsual, IsShown, clock_line, interval_turn-IsShown, print_log2_hists-IsShown,
}

module _ (hist_map : BpfMap HistKey ℕ) where
  open hist_map use {Map, max_entries}

  -- The lines of the intervals from the `i`-th on.
  pub data Rounds (count : ℤ) (traffic : ℕ → List Event) : ℕ → ℕ → List Line → Type 0 where
    no_round : (i : ℕ) → Rounds count traffic zero i []
    round :
        (n i : ℕ) (ls rest : List Line)
        → IsShown hist_map (traffic i) ls
        → Rounds count traffic n (i + 1) rest
        → Rounds count traffic (suc n) i ((clock_line count ++ (ls ++ blank ∷ [])) ++ rest)

  consume-Rounds :
      (junk : ℕ) (count : ℤ) (traffic : ℕ → List Event) (rounds i : ℕ) (m : Map)
      → max_entries ≤ max_tasks
      → ((k : ℕ) → IsUsual hist_map (traffic k))
      → IsEmpty hist_map m
      → (ls : List Line) × (m' : Map) × (consume hist_map junk count traffic rounds i m
          ≡ some (ls, m'))
        × Rounds count traffic rounds i ls
        × IsEmpty hist_map m'
  unfolding consume
  consume-Rounds junk count traffic zero i m fits usual empty = ([], m, refl, no_round i, empty)
  consume-Rounds junk count traffic (suc rounds) i m fits usual empty =
      let (ls, m1, turned, shown, empty1) =
        interval_turn-IsShown hist_map junk count (traffic i) m fits empty (usual i) in
      let (rest, m2, done, more, empty2) =
        consume-Rounds junk count traffic rounds (i + 1) m1 fits usual empty1 in
      (
        (clock_line count ++ (ls ++ blank ∷ [])) ++ rest,
        m2,
        rw (turned, done, consume) refl,
        round rounds i ls rest shown more,
        empty2,
      )

  -- If the arguments of bitesize are in order and the loader answers, the map starts empty and
  -- holds at most 1024 entries, and in every interval there are no more requests than entries,
  -- each shorter than 2 ^ 32 bytes and none with the all-zero key, then main goes through its
  -- intervals and ends with success. For each interval it prints every process with a request in
  -- it, once, with a histogram whose buckets are the numbers of that process's requests in that
  -- interval, in rows that enclose all buckets that are not empty.
  pub main-finished :
      (junk : ℕ) (args : Arguments) (settings : Settings) (traffic : ℕ → List Event) (m : Map)
      → max_entries ≤ max_tasks
      → read_arguments args ≡ some settings
      → ((k : ℕ) → IsUsual hist_map (traffic k))
      → IsEmpty hist_map m
      → (ls : List Line) × (main hist_map junk args false traffic m ≡ finished ls unload_bpf)
        × Rounds settings.count traffic (pos_part settings.count) 0 ls
  unfolding main
  main-finished junk args settings traffic m fits parsed usual empty =
      let (ls, m', done, rounds, after_all) =
        consume-Rounds junk settings.count traffic (pos_part settings.count) 0 m fits usual empty in
      (ls, rw (parsed, done, main) refl, rounds)

  -- A signal during the sleep of an interval that began with an empty map prints its requests.
  pub int_exit-IsShown :
      (junk : ℕ) (es : List Event) (m : Map)
      → max_entries ≤ max_tasks
      → IsEmpty hist_map m
      → IsUsual hist_map es
      → (ls : List Line) × (int_exit hist_map junk (run_probe hist_map es m)
          ≡ finished (blank ∷ ls) unload_bpf)
        × IsShown hist_map es ls
  unfolding int_exit
  int_exit-IsShown junk es m fits empty usual =
      let filled =
        run_probe-IsFilled hist_map es m empty usual.room (omega (arith, usual.room, fits)) in
      let (ls, printed, shown) =
        print_log2_hists-IsShown hist_map junk es (run_probe hist_map es m) fits filled usual in
      (ls, rw (printed, int_exit) refl, shown)
