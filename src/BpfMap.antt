-- ===== src/BpfMap.antt =====
-- The kernel's hash maps, which are not part of the repository: an interface with the documented
-- behaviour of `bpf_map_lookup_elem`, `bpf_map_update_elem` (flag `BPF_ANY`),
-- `bpf_map_delete_elem` and `bpf_map_get_next_key`, and the loop that the user-side tools run over
-- a map, `while (bpf_map_get_next_key(fd, &key, &next_key) == 0) { ...; key = next_key; }`.
pub mod Walk
pub mod Assoc
use prog_playground.Prelude.{
  ℕ, zero, suc, ◌≤◌, ◌<◌, ◌≡◌, ◌⊎◌, Bool, true, false, Option, none, some, List, [], ◌∷◌, length,
  if◌then◌else◌, KeyEq, same, contains, after, Distinct,
}

abbrev pub first {ℓ} : {K : Type ℓ} → List K → Option K
first [] = none
first (x ∷ xs) = some x

abbrev pub is_some {ℓ} : {A : Type ℓ} → Option A → Bool
is_some none = false
is_some (some a) = true

-- The keys that a walk which stands at `k` has still to visit: those behind `k`, and all of them
-- if `k` is not in the map.
abbrev pub pending {ℓ} : {K : Type ℓ} ⦃e : KeyEq K⦄ → K → List K → List K
pending k ks = if contains k ks then after k ks else ks

-- `keys` is the order in which the kernel enumerates a map; it is not observable but through
-- `next_key`, and `delete` and `update` may change it. A walk is not disturbed by others.
pub record BpfMap (K V : Type 0) ⦃e : KeyEq K⦄ : Type 1 where
  pub Map : Type 0
  pub max_entries : ℕ
  pub keys : Map → List K
  pub lookup : Map → K → Option V
  pub update : Map → K → V → Map
  pub delete : Map → K → Map
  pub next_key : Map → K → Option K
  pub next_key_lem : (m : Map) (k : K) → next_key m k ≡ first (pending k (keys m))
  pub keys-Distinct : (m : Map) → Distinct (keys m)
  pub length-keys : (m : Map) → length (keys m) ≤ max_entries
  pub contains-keys : (m : Map) (k : K) → contains k (keys m) ≡ is_some (lookup m k)
  pub lookup-update :
      (m : Map) (k j : K) (v : V)
      → (contains k (keys m) ≡ true) ⊎ (length (keys m) < max_entries)
      → lookup (update m k v) j ≡ (if same k j then some v else lookup m j)
  pub update_full :
      (m : Map) (k : K) (v : V)
      → contains k (keys m) ≡ false
      → max_entries ≤ length (keys m)
      → update m k v ≡ m
  pub length-update :
      (m : Map) (k : K) (v : V) → length (keys (update m k v)) ≤ suc (length (keys m))
  pub lookup-delete :
      (m : Map) (k j : K) → lookup (delete m k) j ≡ (if same k j then none else lookup m j)
  pub length-delete :
      (m : Map) (k : K)
      → contains k (keys m) ≡ true
      → suc (length (keys (delete m k))) ≡ length (keys m)

-- The loop over a map that the body does not change. The body works on the tool's variables and
-- may stop by undefined behaviour; the fuel counts calls of `bpf_map_get_next_key`.
unfoldable pub for_each_key {ℓ κ} :
    {K : Type ℓ} {S : Type κ} → ℕ → (K → Option K) → (S → K → Option S) → K → S → Option S
for_each_key zero next body key s = none
for_each_key (suc fuel) next body key s = elim (next key) [
  | none ↦ some s
  | some k ↦ elim (body s k) [ none ↦ none | some s' ↦ for_each_key fuel next body k s' ]
]

-- The same body over a list of keys.
unfoldable pub fold_keys {ℓ κ} :
    {K : Type ℓ} {S : Type κ} → (S → K → Option S) → List K → S → Option S
fold_keys body [] s = some s
fold_keys body (k ∷ ks) s = elim (body s k) [ none ↦ none | some s' ↦ fold_keys body ks s' ]
