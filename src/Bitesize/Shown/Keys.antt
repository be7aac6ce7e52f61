-- ===== src/Bitesize/Shown/Keys.antt =====
-- The keys of the map after the requests of an interval, which starts with an empty map.
use prog_playground.Prelude.{
  ℕ, ◌+◌, ◌%◌, ◌^◌, ◌≤◌, ◌<◌, ◌≡◌, refl, ◌∙◌, ap, sym, arith, inl, inr, Bool, true, false, ◌||◌,
  Option, none, some, List, [], ◌∷◌, length, ltb, if◌then◌else◌, contains, Option-cases,
}
use prog_playground.BpfMap.{BpfMap, is_some}
use prog_playground.Bitesize.{HistKey, key_Eq, key_eq}
use prog_playground.Bitesize.Kern.{Event, event_key, bpf_prog1, run_probe}
use prog_playground.Bitesize.Kern.Counts.{
  occurrences, stored, count_of, count_of-run_probe, length-bpf_prog1,
}
use prog_playground.Bitesize.Interval.{occurrences-le, no_keys}

is_some-if :
    (o : Option ℕ) (v : ℕ) (c b : Bool)
    → c ≡ is_some o
    → is_some (if b then some v else o) ≡ (b || c)
is_some-if o v c true h = refl
is_some-if o v c false h = sym h

module _ (hist_map : BpfMap HistKey ℕ) where
  open hist_map use {Map, max_entries, keys, lookup, lookup-update, contains-keys}

  abbrev pub IsEmpty : Map → Type 0
  IsEmpty m = (j : HistKey) → lookup m j ≡ none

  contains-bpf_prog1 :
      (ev : Event) (m : Map) (j : HistKey)
      → length (keys m) < max_entries
      → contains j (keys (bpf_prog1 hist_map ev m))
        ≡ (key_eq (event_key ev) j || contains j (keys m))
  unfolding bpf_prog1
  contains-bpf_prog1 ev m j h = elim (Option-cases (lookup m (event_key ev))) [
    | inl new ↦
        rw (new, bpf_prog1, contains-keys, lookup-update m (event_key ev) j 1 (inr h))
          (is_some-if _ _ _ (key_eq (event_key ev) j) (contains-keys m j))
    | inr (v, old) ↦
        rw
          (
            old,
            bpf_prog1,
            contains-keys,
            lookup-update m (event_key ev) j ((v + 1) % 2 ^ 64) (inr h),
          )
          (is_some-if _ _ _ (key_eq (event_key ev) j) (contains-keys m j))
  ]

  contains-run_probe :
      (es : List Event) (m : Map) (j : HistKey)
      → length (keys m) + length es ≤ max_entries
      → contains j (keys (run_probe hist_map es m))
        ≡ (ltb 0 (occurrences j es) || contains j (keys m))
  unfolding run_probe
  contains-run_probe [] m j room = refl
  contains-run_probe (ev ∷ es) m j room = ground (
    arith,
    contains-bpf_prog1 ev m j (omega arith),
    length-bpf_prog1 hist_map ev m,
    contains-run_probe es (bpf_prog1 hist_map ev m) j,
  )

  -- After the requests of an interval that the map has room for.
  pub record IsFilled (es : List Event) (m : Map) : Type 0 where
    pub counted : (j : HistKey) → count_of hist_map m j ≡ occurrences j es
    pub present : (j : HistKey) → contains j (keys m) ≡ ltb 0 (occurrences j es)

  pub run_probe-IsFilled :
      (es : List Event) (m : Map)
      → IsEmpty m
      → length es ≤ max_entries
      → length es < 2 ^ 64
      → IsFilled es (run_probe hist_map es m)
  run_probe-IsFilled es m empty room small =
      let fresh : length (keys m) ≡ 0 = ap length (no_keys hist_map m (keys m) refl empty) in
      record {
        counted = λ j. omega (
          arith,
          count_of-run_probe hist_map es m j (omega arith) (rw (empty j) (omega arith)),
          ap stored (empty j),
          occurrences-le j es,
        );
        present = λ j.
            contains-run_probe es m j (omega arith)
            ∙ ground (arith, contains-keys m j, ap is_some (empty j));
      }
