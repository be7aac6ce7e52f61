-- ===== src/BpfMap/Walk.antt =====
-- A walk by `bpf_map_get_next_key` visits the keys that stand behind the one it starts from.
use prog_playground.Prelude.{
  ℕ, zero, suc, ◌≤◌, ◌<◌, ◌≡◌, refl, ◌∙◌, ap, inl, inr, Option, none, some, List, [], ◌∷◌, length,
  arith, Bool-cases, Option-cases, KeyEq, contains, after, contains-after, Distinct, after-next,
  same_refl,
}
use prog_playground.BpfMap.{BpfMap, first, pending, for_each_key, fold_keys}

module _ {ℓ} {K : Type ℓ} ⦃e : KeyEq K⦄ where
  pending-next :
      (k x : K) (ks rest : List K) → Distinct ks → pending k ks ≡ x ∷ rest → pending x ks ≡ rest
  pending-next k x ks rest d h = elim (Bool-cases (contains k ks)) [
    | inl old ↦
        let behind : after k ks ≡ x ∷ rest = rw old at h in
        rw (contains-after k x ks rest behind) (after-next k x ks rest d behind)
    | inr new ↦ let all : ks ≡ x ∷ rest = rw new at h in rw (all, same_refl x)
  ]

  length-after : (k : K) (ks : List K) → length (after k ks) ≤ length ks
  length-after k [] = omega arith
  length-after k (x ∷ xs) = ground (arith, length-after k xs)

  pub length-pending : (k : K) (ks : List K) → length (pending k ks) ≤ length ks
  length-pending k ks = elim (Bool-cases (contains k ks)) [
    | inl old ↦ rw old (length-after k ks)
    | inr new ↦ rw new (omega arith)
  ]

module _ {K V : Type 0} ⦃e : KeyEq K⦄ (b : BpfMap K V) where
  open b use {Map, keys, next_key, next_key_lem, keys-Distinct, length-keys, max_entries}

  pub for_each_key-pending {ℓ} :
      {S : Type ℓ} (body : S → K → Option S) (m : Map) (rest : List K) (fuel : ℕ) (key : K) (s : S)
      → pending key (keys m) ≡ rest
      → length rest < fuel
      → for_each_key fuel (next_key m) body key s ≡ fold_keys body rest s
  unfolding for_each_key fold_keys
  for_each_key-pending body m rest zero key s e h = absurd (omega arith)
  for_each_key-pending body m [] (suc fuel) key s p h =
      let next : next_key m key ≡ none = next_key_lem m key ∙ ap first p in rw (next, for_each_key)
  for_each_key-pending body m (x ∷ rest) (suc fuel) key s p h =
      let next : next_key m key ≡ some x = next_key_lem m key ∙ ap first p in
      let behind = pending-next key x (keys m) rest (keys-Distinct m) p in
      rw (next, for_each_key)
        (elim (Option-cases (body s x)) [
          | inl stop ↦ rw (stop, for_each_key, fold_keys)
          | inr (s', go) ↦
              rw (go, for_each_key, fold_keys)
                (for_each_key-pending body m rest fuel x s' behind (omega arith))
        ])

  -- With one call for each key and one more, a walk from `key` is the body run over the keys that
  -- stand behind `key`, and over all keys if `key` is not in the map.
  pub for_each_key_lem {ℓ} :
      {S : Type ℓ} (body : S → K → Option S) (m : Map) (key : K) (s : S)
      → for_each_key (suc max_entries) (next_key m) body key s
        ≡ fold_keys body (pending key (keys m)) s
  for_each_key_lem body m key s =
      for_each_key-pending body m (pending key (keys m)) (suc max_entries) key s refl
        (omega (arith, length-pending key (keys m), length-keys m))
