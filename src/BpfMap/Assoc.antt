-- ===== src/BpfMap/Assoc.antt =====
-- Association lists satisfy the interface of the kernel's hash maps.
use prog_playground.Prelude.{
  ℕ, suc, ◌≤◌, ◌<◌, ◌≡◌, refl, ◌⊎◌, inl, inr, true, false, Option, none, some, List, [], ◌∷◌,
  length, arith, if◌then◌else◌, ltb, ltb→lt, not_ltb→le, Bool-cases, KeyEq, same, contains,
  Distinct,
}
use prog_playground.BpfMap.{BpfMap, first, is_some, pending}

module _ {K V : Type 0} ⦃e : KeyEq K⦄ where
  abbrev pub keys_of : List (K × V) → List K
  keys_of [] = []
  keys_of ((k, v) ∷ es) = k ∷ keys_of es

  abbrev pub find : K → List (K × V) → Option V
  find k [] = none
  find k ((j, v) ∷ es) = if same j k then some v else find k es

  abbrev pub put : K → V → List (K × V) → List (K × V)
  put k v [] = []
  put k v ((j, w) ∷ es) = if same j k then (j, v) ∷ es else (j, w) ∷ put k v es

  abbrev pub drop_key : K → List (K × V) → List (K × V)
  drop_key k [] = []
  drop_key k ((j, w) ∷ es) = if same j k then es else (j, w) ∷ drop_key k es

  pub contains-find : (k : K) (es : List (K × V)) → contains k (keys_of es) ≡ is_some (find k es)
  contains-find k [] = refl
  contains-find k ((j, v) ∷ es) = ground (arith, contains-find k es)

  pub keys_of-put : (k : K) (v : V) (es : List (K × V)) → keys_of (put k v es) ≡ keys_of es
  keys_of-put k v [] = refl
  keys_of-put k v ((j, w) ∷ es) = ground (arith, keys_of-put k v es)

  find-put :
      (k j : K) (v : V) (es : List (K × V))
      → contains k (keys_of es) ≡ true
      → find j (put k v es) ≡ (if same k j then some v else find j es)
  find-put k j v [] h = cc
  find-put k j v ((i, w) ∷ es) h =
      ground (arith, find-put k j v es, e.is_same_iff i k, e.is_same_iff i j, e.is_same_iff k j)

  contains-drop_key :
      (j k : K) (es : List (K × V))
      → contains j (keys_of es) ≡ false
      → contains j (keys_of (drop_key k es)) ≡ false
  contains-drop_key j k [] h = refl
  contains-drop_key j k ((i, w) ∷ es) h = ground (arith, contains-drop_key j k es)

  pub drop_key-Distinct :
      (k : K) (es : List (K × V)) → Distinct (keys_of es) → Distinct (keys_of (drop_key k es))
  drop_key-Distinct k [] d = tt
  drop_key-Distinct k ((i, w) ∷ es) d = elim (Bool-cases (same i k)) [
    | inl hit ↦ rw hit d.1
    | inr miss ↦ rw miss (contains-drop_key i k es d.0, drop_key-Distinct k es d.1)
  ]

  find_absent : (k : K) (es : List (K × V)) → contains k (keys_of es) ≡ false → find k es ≡ none
  find_absent k [] h = refl
  find_absent k ((i, w) ∷ es) h = ground (arith, find_absent k es)

  pub find-drop_key :
      (k j : K) (es : List (K × V))
      → Distinct (keys_of es)
      → find j (drop_key k es) ≡ (if same k j then none else find j es)
  find-drop_key k j [] d = ground arith
  find-drop_key k j ((i, w) ∷ es) d = ground (
    arith,
    find-drop_key k j es d.1,
    find_absent j es,
    find_absent i es,
    e.is_same_iff i k,
    e.is_same_iff i j,
    e.is_same_iff k j,
  )

  pub length-drop_key :
      (k : K) (es : List (K × V))
      → contains k (keys_of es) ≡ true
      → suc (length (keys_of (drop_key k es))) ≡ length (keys_of es)
  length-drop_key k [] h = cc
  length-drop_key k ((i, w) ∷ es) h = ground (arith, length-drop_key k es)

  pub length-drop_key-le :
      (k : K) (es : List (K × V)) → length (keys_of (drop_key k es)) ≤ length (keys_of es)
  length-drop_key-le k [] = omega arith
  length-drop_key-le k ((i, w) ∷ es) = ground (arith, length-drop_key-le k es)

pub record Table (K V : Type 0) (n : ℕ) ⦃e : KeyEq K⦄ : Type 0 where
  pub entries : List (K × V)
  pub distinct : Distinct (keys_of entries)
  pub small : length (keys_of entries) ≤ n

module _ {K V : Type 0} (n : ℕ) ⦃e : KeyEq K⦄ where
  unfoldable pub place :
      (t : Table K V n) (k : K) (v : V)
      → (contains k (keys_of t.entries) ≡ true) ⊎ (contains k (keys_of t.entries) ≡ false)
      → (ltb (length (keys_of t.entries)) n ≡ true) ⊎ (ltb (length (keys_of t.entries)) n ≡ false)
      → Table K V n
  place t k v (inl old) r = record {
    entries = put k v t.entries;
    distinct = rw keys_of-put t.distinct;
    small = rw keys_of-put t.small;
  }
  place t k v (inr new) (inl room) = record {
    entries = (k, v) ∷ t.entries;
    distinct = (new, t.distinct);
    small = ltb→lt _ _ room;
  }
  place t k v (inr new) (inr full) = t

  unfoldable pub table_update : Table K V n → K → V → Table K V n
  unfolding place Bool-cases
  table_update t k v =
      place t k v (Bool-cases (contains k (keys_of t.entries)))
        (Bool-cases (ltb (length (keys_of t.entries)) n))

  unfoldable pub table_delete : Table K V n → K → Table K V n
  table_delete t k = record {
    entries = drop_key k t.entries;
    distinct = drop_key-Distinct k t.entries t.distinct;
    small = omega (arith, length-drop_key-le k t.entries, t.small);
  }

  find-place :
      (t : Table K V n) (k j : K) (v : V)
      → (contains k (keys_of t.entries) ≡ true) ⊎ (length (keys_of t.entries) < n)
      → (o : (contains k (keys_of t.entries) ≡ true) ⊎ (contains k (keys_of t.entries) ≡ false))
      → (r : (ltb (length (keys_of t.entries)) n ≡ true)
          ⊎ (ltb (length (keys_of t.entries)) n ≡ false))
      → find j (place t k v o r).entries ≡ (if same k j then some v else find j t.entries)
  unfolding place
  find-place t k j v h (inl old) r = find-put k j v t.entries old
  find-place t k j v h (inr new) (inl room) = refl
  find-place t k j v h (inr new) (inr full) = elim h [
    | inl old ↦ cc
    | inr room ↦ absurd (omega (arith, not_ltb→le _ n full))
  ]

  pub table_lookup-update :
      (t : Table K V n) (k j : K) (v : V)
      → (contains k (keys_of t.entries) ≡ true) ⊎ (length (keys_of t.entries) < n)
      → find j (table_update t k v).entries ≡ (if same k j then some v else find j t.entries)
  unfolding table_update
  table_lookup-update t k j v h = find-place t k j v h _ _

  place_full :
      (t : Table K V n) (k : K) (v : V)
      → contains k (keys_of t.entries) ≡ false
      → n ≤ length (keys_of t.entries)
      → (o : (contains k (keys_of t.entries) ≡ true) ⊎ (contains k (keys_of t.entries) ≡ false))
      → (r : (ltb (length (keys_of t.entries)) n ≡ true)
          ⊎ (ltb (length (keys_of t.entries)) n ≡ false))
      → place t k v o r ≡ t
  unfolding place
  place_full t k v h f (inl old) r = cc
  place_full t k v h f (inr new) (inl room) = absurd (omega (arith, ltb→lt _ n room))
  place_full t k v h f (inr new) (inr full) = refl

  pub table_update_full :
      (t : Table K V n) (k : K) (v : V)
      → contains k (keys_of t.entries) ≡ false
      → n ≤ length (keys_of t.entries)
      → table_update t k v ≡ t
  unfolding table_update
  table_update_full t k v h f = place_full t k v h f _ _

  length-place :
      (t : Table K V n) (k : K) (v : V)
      → (o : (contains k (keys_of t.entries) ≡ true) ⊎ (contains k (keys_of t.entries) ≡ false))
      → (r : (ltb (length (keys_of t.entries)) n ≡ true)
          ⊎ (ltb (length (keys_of t.entries)) n ≡ false))
      → length (keys_of (place t k v o r).entries) ≤ suc (length (keys_of t.entries))
  unfolding place
  length-place t k v (inl old) r = rw keys_of-put (omega arith)
  length-place t k v (inr new) (inl room) = omega arith
  length-place t k v (inr new) (inr full) = omega arith

  pub table_length-update :
      (t : Table K V n) (k : K) (v : V)
      → length (keys_of (table_update t k v).entries) ≤ suc (length (keys_of t.entries))
  unfolding table_update
  table_length-update t k v = length-place t k v _ _

  pub table_lookup-delete :
      (t : Table K V n) (k j : K)
      → find j (table_delete t k).entries ≡ (if same k j then none else find j t.entries)
  unfolding table_delete
  table_lookup-delete t k j = find-drop_key k j t.entries t.distinct

  pub table_length-delete :
      (t : Table K V n) (k : K)
      → contains k (keys_of t.entries) ≡ true
      → suc (length (keys_of (table_delete t k).entries)) ≡ length (keys_of t.entries)
  unfolding table_delete
  table_length-delete t k = length-drop_key k t.entries

  -- The interface, filled.
  abbrev pub assoc_map : BpfMap K V
  assoc_map = record {
    Map = Table K V n;
    max_entries = n;
    keys = λ t. keys_of t.entries;
    lookup = λ t k. find k t.entries;
    update = table_update;
    delete = table_delete;
    next_key = λ t k. first (pending k (keys_of t.entries));
    next_key_lem = λ t k. refl;
    keys-Distinct = λ t. t.distinct;
    length-keys = λ t. t.small;
    contains-keys = λ t k. contains-find k t.entries;
    lookup-update = table_lookup-update;
    update_full = table_update_full;
    length-update = table_length-update;
    lookup-delete = table_lookup-delete;
    length-delete = table_length-delete;
  }
