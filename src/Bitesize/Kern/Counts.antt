-- ===== src/Bitesize/Kern/Counts.antt =====
-- What the map of bitesize_kern.c counts.
use prog_playground.Prelude.{
  ℕ, suc, ◌+◌, ◌%◌, ◌^◌, ◌≤◌, ◌<◌, ◌≡◌, ap, ◌⊎◌, inl, inr, true, false, Option, none, some, List,
  [], ◌∷◌, length, arith, if◌then◌else◌, contains, Option-cases,
}
use prog_playground.BpfMap.{BpfMap, is_some}
use prog_playground.Bitesize.{HistKey, key_Eq, key_eq, key_eq_iff}
use prog_playground.Bitesize.Kern.{Event, event_key, bpf_prog1, run_probe}

-- The number of events of a list that have the key `j`.
abbrev pub occurrences : HistKey → List Event → ℕ
occurrences j [] = 0
occurrences j (ev ∷ es) = (if key_eq (event_key ev) j then 1 else 0) + occurrences j es

abbrev pub stored : Option ℕ → ℕ
stored none = 0
stored (some v) = v

module _ (hist_map : BpfMap HistKey ℕ) where
  open hist_map use {
    Map, max_entries, keys, lookup, update, lookup-update, update_full, contains-keys,
    length-update,
  }

  abbrev pub count_of : Map → HistKey → ℕ
  count_of m j = stored (lookup m j)

  -- An event whose key is in the map, or for whose key there is room, adds one to that key's
  -- count modulo 2 ^ 64 and changes no other count.
  pub count_of-bpf_prog1 :
      (ev : Event) (m : Map) (j : HistKey)
      → (contains (event_key ev) (keys m) ≡ true) ⊎ (length (keys m) < max_entries)
      → count_of (bpf_prog1 hist_map ev m) j
        ≡ (if key_eq (event_key ev) j then (count_of m j + 1) % 2 ^ 64 else count_of m j)
  unfolding bpf_prog1
  count_of-bpf_prog1 ev m j h = elim (Option-cases (lookup m (event_key ev))) [
    | inl new ↦
        rw (new, bpf_prog1, lookup-update m (event_key ev) j 1 h)
          (ground (arith, key_eq_iff (event_key ev) j, same_stored (event_key ev) j new))
    | inr (v, old) ↦
        rw (old, bpf_prog1, lookup-update m (event_key ev) j ((v + 1) % 2 ^ 64) h)
          (ground (arith, key_eq_iff (event_key ev) j, same_stored (event_key ev) j old))
  ]
    where
      same_stored :
          {o : Option ℕ} (k i : HistKey) → lookup m k ≡ o → k ≡ i → count_of m i ≡ stored o
      same_stored k i e p = rw (← p, e)

  -- An event that finds as many entries in the map as it can hold, and its key absent, is lost:
  -- the map stays as it was.
  pub bpf_prog1_full :
      (ev : Event) (m : Map)
      → contains (event_key ev) (keys m) ≡ false
      → max_entries ≤ length (keys m)
      → bpf_prog1 hist_map ev m ≡ m
  unfolding bpf_prog1
  bpf_prog1_full ev m new full = elim (Option-cases (lookup m (event_key ev))) [
    | inl absent ↦ rw (absent, bpf_prog1) (update_full m (event_key ev) 1 new full)
    | inr (v, old) ↦ cc (contains-keys m (event_key ev), ap is_some old)
  ]

  pub length-bpf_prog1 :
      (ev : Event) (m : Map) → length (keys (bpf_prog1 hist_map ev m)) ≤ suc (length (keys m))
  unfolding bpf_prog1
  length-bpf_prog1 ev m = elim (Option-cases (lookup m (event_key ev))) [
    | inl absent ↦ rw (absent, bpf_prog1) (length-update m (event_key ev) 1)
    | inr (v, old) ↦ rw (old, bpf_prog1) (length-update m (event_key ev) ((v + 1) % 2 ^ 64))
  ]

  -- As long as the map has room for one entry for each of the events, every key's count, if it is
  -- a 64-bit value, grows by the number of its events, modulo 2 ^ 64.
  pub count_of-run_probe :
      (es : List Event) (m : Map) (j : HistKey)
      → length (keys m) + length es ≤ max_entries
      → count_of m j < 2 ^ 64
      → count_of (run_probe hist_map es m) j ≡ (count_of m j + occurrences j es) % 2 ^ 64
  unfolding run_probe
  count_of-run_probe [] m j room small = omega arith
  count_of-run_probe (ev ∷ es) m j room small = ground (
    arith,
    count_of-bpf_prog1 ev m j (inr (omega arith)),
    length-bpf_prog1 ev m,
    count_of-run_probe es (bpf_prog1 hist_map ev m) j,
  )
