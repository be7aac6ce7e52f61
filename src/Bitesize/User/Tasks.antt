-- ===== src/Bitesize/User/Tasks.antt =====
-- The list of processes that `print_log2_hists` collects before it prints.
use prog_playground.Prelude.{
  ℕ, suc, ◌+◌, ◌≤◌, ◌≡◌, refl, ◌∙◌, Bool, false, ◌||◌, some, List, [], ◌∷◌, ◌++◌, length, arith,
  ◌==◌, lt→ltb, Bool-cases, inl, inr, contains, length-append,
}
use prog_playground.BpfMap.{BpfMap, for_each_key, fold_keys}
use prog_playground.BpfMap.Walk.{for_each_key_lem}
use prog_playground.Bitesize.{TaskInfo, HistKey, key_Eq, zero_key}
use prog_playground.Bitesize.User.{found, add_task, max_tasks}

-- A process has a key.
abbrev pub has_pid : ℕ → List HistKey → Bool
has_pid pid [] = false
has_pid pid (k ∷ ks) = k.info.pid == pid || has_pid pid ks

-- No process is listed twice.
abbrev pub DistinctPids : List TaskInfo → Type 0
DistinctPids [] = Unit
DistinctPids (t ∷ ts) = (found ts t.pid ≡ false) × DistinctPids ts

found-append :
    (ts : List TaskInfo) (t : TaskInfo) (pid : ℕ)
    → found (ts ++ t ∷ []) pid ≡ (found ts pid || t.pid == pid)
unfolding found
found-append [] t pid = ground arith
found-append (u ∷ ts) t pid = ground (arith, found-append ts t pid)

append-DistinctPids :
    (ts : List TaskInfo) (t : TaskInfo)
    → found ts t.pid ≡ false
    → DistinctPids ts
    → DistinctPids (ts ++ t ∷ [])
unfolding found
append-DistinctPids [] t new d = (refl, tt)
append-DistinctPids (u ∷ ts) t new d =
    (ground (arith, found-append ts t u.pid, d.0), append-DistinctPids ts t (ground arith) d.1)

add_task_lem :
    (ts : List TaskInfo) (k : HistKey)
    → length ts + 1 ≤ max_tasks
    → DistinctPids ts
    → (ts' : List TaskInfo) × (add_task ts k ≡ some ts')
      × DistinctPids ts'
      × (length ts' ≤ length ts + 1)
      × ((pid : ℕ) → found ts' pid ≡ (found ts pid || k.info.pid == pid))
unfolding add_task
add_task_lem ts k room d = elim (Bool-cases (found ts k.info.pid)) [
  | inl old ↦ (ts, rw old, d, omega arith, λ pid. ground arith)
  | inr new ↦ (
    ts ++ k.info ∷ [],
    rw (new, lt→ltb (length ts) max_tasks (omega arith)),
    append-DistinctPids ts k.info new d,
    omega (arith, length-append {A = TaskInfo} ts (k.info ∷ [])),
    found-append ts k.info,
  )
]

fold-add_task :
    (ks : List HistKey) (ts : List TaskInfo)
    → length ts + length ks ≤ max_tasks
    → DistinctPids ts
    → (ts' : List TaskInfo) × (fold_keys add_task ks ts ≡ some ts')
      × DistinctPids ts'
      × ((pid : ℕ) → found ts' pid ≡ (found ts pid || has_pid pid ks))
unfolding fold_keys
fold-add_task [] ts room d = (ts, refl, d, λ pid. ground arith)
fold-add_task (k ∷ ks) ts room d =
    let (ts1, done, d1, grown, finds) = add_task_lem ts k (omega arith) d in
    let (ts2, rest, d2, all) = fold-add_task ks ts1 (omega arith) d1 in
    (ts2, rw (done, fold_keys) rest, d2, λ pid. ground (arith, finds pid, all pid))

-- If the all-zero key is not in the map and the map has at most 1024 entries, the walk of
-- print_log2_hists does not overrun its array of tasks; it lists every process that has a key, no
-- other, and none twice.
pub collect_tasks_lem :
    (hist_map : BpfMap HistKey ℕ) (m : hist_map.Map)
    → hist_map.max_entries ≤ max_tasks
    → contains zero_key (hist_map.keys m) ≡ false
    → (ts : List TaskInfo) × (for_each_key
          (suc hist_map.max_entries)
          (hist_map.next_key m)
          add_task
          zero_key
          []
        ≡ some ts)
      × DistinctPids ts
      × ((pid : ℕ) → found ts pid ≡ has_pid pid (hist_map.keys m))
unfolding found
collect_tasks_lem hist_map m fits absent =
    let (ts, done, d, all) =
      fold-add_task (hist_map.keys m) [] (omega (arith, hist_map.length-keys m)) tt in
    (ts, for_each_key_lem hist_map add_task m zero_key [] ∙ rw absent done, d, all)
