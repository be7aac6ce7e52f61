-- ===== src/Bitesize/Interval.antt =====
-- How the clearing walk and the probe work together, and which arguments `main` accepts.
use prog_playground.Prelude.{
  ℕ, zero, suc, ◌^◌, ◌≤◌, ◌<◌, ◌≡◌, ◌≢◌, refl, ap, ◌⊎◌, inl, inr, ◌↔◌, Bool, true, false, none,
  some, List, [], ◌∷◌, length, arith, contains, after, same_refl, ℤ, pos, negsuc, Option-cases,
}
use prog_playground.BpfMap.{BpfMap, is_some}
use prog_playground.Bitesize.{HistKey, key_Eq, zero_key}
use prog_playground.Bitesize.Kern.{Event, run_probe}
use prog_playground.Bitesize.Kern.Counts.{occurrences, count_of, stored, count_of-run_probe}
use prog_playground.Bitesize.User.{clear_hash}
use prog_playground.Bitesize.User.Clear.{clear_hash_empties}
use prog_playground.Bitesize.Main.{Arguments, Settings, usage_exit, read_arguments, main}

pub occurrences-le : (j : HistKey) (es : List Event) → occurrences j es ≤ length es
occurrences-le j [] = omega arith
occurrences-le j (ev ∷ es) = ground (arith, occurrences-le j es)

abbrev Misused : List ℕ → List ℤ → Type 0
Misused options operands = (options ≢ []) ⊎ ((rest : List ℤ) × (operands ≡ pos 0 ∷ rest))

read_arguments_iff :
    (os : List ℕ) (vs : List ℤ)
    → (read_arguments (record { options = os; operands = vs }) ≡ none) ↔ Misused os vs
unfolding read_arguments
read_arguments_iff (o ∷ os) vs = ((λ e. inl (λ p. cc)), λ h. refl)
read_arguments_iff [] [] = ((λ e. cc), λ h. elim h [ inl n ↦ absurd (n refl) | inr (rest, e) ↦ cc ])
read_arguments_iff [] (pos zero ∷ []) = ((λ e. inr ([], refl)), λ h. refl)
read_arguments_iff [] (pos zero ∷ v ∷ vs) = ((λ e. inr (v ∷ vs, refl)), λ h. refl)
read_arguments_iff [] (pos (suc n) ∷ []) =
    ((λ e. cc), λ h. elim h [ inl n ↦ absurd (n refl) | inr (rest, e) ↦ ground arith ])
read_arguments_iff [] (pos (suc n) ∷ v ∷ vs) =
    ((λ e. cc), λ h. elim h [ inl n ↦ absurd (n refl) | inr (rest, e) ↦ ground arith ])
read_arguments_iff [] (negsuc n ∷ []) =
    ((λ e. cc), λ h. elim h [ inl n ↦ absurd (n refl) | inr (rest, e) ↦ cc ])
read_arguments_iff [] (negsuc n ∷ v ∷ vs) =
    ((λ e. cc), λ h. elim h [ inl n ↦ absurd (n refl) | inr (rest, e) ↦ cc ])

-- The main of bitesize calls usage exactly if an option is given, known or not, or the first
-- operand is the interval 0.
pub main-usage_iff :
    (hist_map : BpfMap HistKey ℕ) (junk : ℕ) (args : Arguments) (load_fails : Bool)
    (traffic : ℕ → List Event) (m : hist_map.Map)
    → (main hist_map junk args load_fails traffic m ≡ usage_exit)
      ↔ ((args.options ≢ []) ⊎ ((rest : List ℤ) × (args.operands ≡ pos 0 ∷ rest)))
main-usage_iff hist_map junk args load_fails traffic m = elim (Option-cases (read_arguments args)) [
  | inl bad ↦ (
    (λ h. (read_arguments_iff args.options args.operands).0 bad),
    λ h. unfold main in rw (bad, main),
  )
  | inr (settings, good) ↦ (
    (λ h. absurd (unfold main in not_usage settings good h)),
    λ h. cc (good, (read_arguments_iff args.options args.operands).1 h),
  )
]
  where
    not_usage :
        (settings : Settings)
        → read_arguments args ≡ some settings
        → main hist_map junk args load_fails traffic m ≢ usage_exit
    not_usage settings good h = unfold main in ground arith

module _ (hist_map : BpfMap HistKey ℕ) where
  open hist_map use {Map, max_entries, keys, lookup, contains-keys}

  pub no_keys :
      (m : Map) (ks : List HistKey) → keys m ≡ ks → ((j : HistKey) → lookup m j ≡ none) → ks ≡ []
  no_keys m [] e h = refl
  no_keys m (k ∷ ks) e h =
      let member : contains k (keys m) ≡ true = rw (e, same_refl k) in
      cc (member, contains-keys m k, ap is_some (h k))

  -- Unless the all-zero key is the last key of the map, after clear_hash every count is the number
  -- of the next interval's requests of that key, whatever the map held before, as long as there
  -- are no more requests than the map has entries and fewer than 2 ^ 64.
  pub interval_counts :
      (m : Map) (es : List Event) (j : HistKey)
      → (contains zero_key (keys m) ≡ false) ⊎ (after zero_key (keys m) ≢ [])
      → length es ≤ max_entries
      → length es < 2 ^ 64
      → (m' : Map) × (clear_hash hist_map m ≡ some m')
        × (count_of hist_map (run_probe hist_map es m') j ≡ occurrences j es)
  interval_counts m es j h room small =
      let (m', done, none_left) = clear_hash_empties hist_map m h in
      let fresh : length (keys m') ≡ 0 = ap length (no_keys m' (keys m') refl none_left) in
      let start : count_of hist_map m' j ≡ 0 = ap stored (none_left j) in
      (
        m',
        done,
        omega (
          arith,
          count_of-run_probe hist_map es m' j (omega arith) (omega arith),
          occurrences-le j es,
        ),
      )
