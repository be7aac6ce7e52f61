-- ===== src/Bitesize/User/Clear.antt =====
-- What `clear_hash` leaves in the map.
use prog_playground.Prelude.{
  ℕ, zero, suc, ◌≤◌, ◌<◌, ◌≡◌, refl, ◌∙◌, ap, ◌≢◌, true, false, none, some, List, [], ◌∷◌, length,
  arith, same_refl, contains, contains-after, after, ◌⊎◌, Option-cases, inl, inr, Bool-cases,
}
use prog_playground.BpfMap.{BpfMap, first, pending, is_some}
use prog_playground.Bitesize.{HistKey, key_Eq, zero_key}
use prog_playground.Bitesize.User.{clear_from, clear_hash}

module _ (hist_map : BpfMap HistKey ℕ) where
  open hist_map use {
    Map, max_entries, keys, lookup, delete, next_key, next_key_lem, contains-keys, lookup-delete,
    length-delete, length-keys,
  }

  contains-delete : (m : Map) (k : HistKey) → contains k (keys (delete m k)) ≡ false
  contains-delete m k = rw (contains-keys, lookup-delete, same_refl k)

  clear_from_absent :
      (fuel : ℕ) (ks : List HistKey) (m : Map) (key : HistKey)
      → keys m ≡ ks
      → contains key ks ≡ false
      → length ks < fuel
      → (m' : Map) × (clear_from hist_map fuel m key ≡ some m') × (keys m' ≡ [])
  unfolding clear_from
  clear_from_absent zero ks m key e new h = absurd (omega arith)
  clear_from_absent (suc fuel) [] m key e new h =
      let stop : next_key m key ≡ none = next_key_lem m key ∙ ap (λ l. first (pending key l)) e in
      (m, rw (stop, clear_from), e)
  clear_from_absent (suc fuel) (k ∷ ks) m key e new h =
      let go : next_key m key ≡ some k =
        next_key_lem m key ∙ ap (λ l. first (pending key l)) e ∙ rw new in
      let member : contains k (keys m) ≡ true = rw (e, same_refl k) in
      let fewer : length (keys (delete m k)) < fuel =
        omega (arith, length-delete m k member, ap length e) in
      let (m', done, none_left) =
        clear_from_absent fuel (keys (delete m k)) (delete m k) k refl (contains-delete m k)
          fewer in
      (m', rw (go, clear_from) done, none_left)

  lookup_empty : (m : Map) (j : HistKey) → keys m ≡ [] → lookup m j ≡ none
  lookup_empty m j e = elim (Option-cases (lookup m j)) [
    | inl absent ↦ absent
    | inr (v, there) ↦ cc (contains-keys m j, ap is_some there, ap (contains j) e)
  ]

  clear_from_present :
      (fuel : ℕ) (ks : List HistKey) (m : Map) (key : HistKey)
      → contains key (keys m) ≡ true
      → after key (keys m) ≡ ks
      → ks ≢ []
      → length (keys m) ≤ fuel
      → (m' : Map) × (clear_from hist_map (suc fuel) m key ≡ some m') × (keys m' ≡ [])
  unfolding clear_from
  clear_from_present fuel [] m key old e ne h = absurd (ne refl)
  clear_from_present fuel (k ∷ ks) m key old e ne h =
      let go : next_key m key ≡ some k = next_key_lem m key ∙ rw (old, e) in
      let member : contains k (keys m) ≡ true = contains-after key k (keys m) ks e in
      let (m', done, none_left) =
        clear_from_absent fuel (keys (delete m k)) (delete m k) k refl (contains-delete m k)
          (omega (arith, length-delete m k member)) in
      (m', rw (go, clear_from) done, none_left)

  -- clear_hash ends and empties the map, unless the all-zero key is in it and is the last in the
  -- kernel's order of keys.
  pub clear_hash_empties :
      (m : Map)
      → (contains zero_key (keys m) ≡ false) ⊎ (after zero_key (keys m) ≢ [])
      → (m' : Map) × (clear_hash hist_map m ≡ some m') × ((j : HistKey) → lookup m' j ≡ none)
  unfolding clear_hash
  clear_hash_empties m h = elim (Bool-cases (contains zero_key (keys m))) [
    | inl old ↦
        let (m', done, e) =
          clear_from_present max_entries (after zero_key (keys m)) m zero_key old refl
            (elim h [ inl new ↦ cc | inr ne ↦ ne ]) (length-keys m) in
        (m', done, λ j. lookup_empty m' j e)
    | inr new ↦
        let (m', done, e) =
          clear_from_absent (suc max_entries) (keys m) m zero_key refl new
            (omega (arith, length-keys m)) in
        (m', done, λ j. lookup_empty m' j e)
  ]

  -- A map whose last key is the all-zero key is left as it is by clear_hash.
  pub clear_hash_stuck :
      (m : Map)
      → contains zero_key (keys m) ≡ true
      → after zero_key (keys m) ≡ []
      → clear_hash hist_map m ≡ some m
  unfolding clear_hash clear_from
  clear_hash_stuck m old last =
      let stop : next_key m zero_key ≡ none = next_key_lem m zero_key ∙ rw (old, last) in
      rw (stop, clear_from)
