-- ===== src/Bitesize/Shown.antt =====
-- What the requests of an interval are to show, and what the map holds after them.
pub mod Keys
pub mod Turn
pub mod Rounds
use prog_playground.Prelude.{
  ℕ, zero, suc, ◌+◌, ◌≤◌, ◌<◌, ◌≡◌, refl, ◌∙◌, ap, sym, arith, Bool, true, false, ◌&&◌, List, [],
  ◌∷◌, length, ◌==◌, ltb, if◌then◌else◌, contains, Distinct, same_refl, Bool-cases, inl, inr,
}
use prog_playground.Bitesize.{HistKey, key_Eq, key_eq, key_eq_iff}
use prog_playground.Bitesize.Kern.{Event, event_key}
use prog_playground.Bitesize.Kern.Counts.{occurrences}

-- The number of requests whose key passes a test.
abbrev pub requests : (HistKey → Bool) → List Event → ℕ
requests test [] = 0
requests test (ev ∷ es) = (if test (event_key ev) then 1 else 0) + requests test es

abbrev pub of_process : ℕ → HistKey → Bool
of_process pid k = k.info.pid == pid

abbrev pub of_bucket : ℕ → ℕ → HistKey → Bool
of_bucket pid i k = k.info.pid == pid && i == k.index

-- The same, added up over a list of keys.
abbrev pub picked : (HistKey → Bool) → List Event → List HistKey → ℕ
picked test es [] = 0
picked test es (k ∷ ks) = (if test k then occurrences k es else 0) + picked test es ks

pub requests-le : (test : HistKey → Bool) (es : List Event) → requests test es ≤ length es
requests-le test [] = omega arith
requests-le test (ev ∷ es) = ground (arith, requests-le test es)

picked-nil : (test : HistKey → Bool) (ks : List HistKey) → picked test [] ks ≡ 0
picked-nil test [] = refl
picked-nil test (k ∷ ks) = ground (arith, picked-nil test ks)

-- What one more request of the key `j` adds.
abbrev once : (HistKey → Bool) → HistKey → List HistKey → ℕ
once test j [] = 0
once test j (k ∷ ks) = (if test k then (if key_eq j k then 1 else 0) else 0) + once test j ks

picked-cons :
    (test : HistKey → Bool) (ev : Event) (es : List Event) (ks : List HistKey)
    → picked test (ev ∷ es) ks ≡ once test (event_key ev) ks + picked test es ks
picked-cons test ev es [] = refl
picked-cons test ev es (k ∷ ks) = ground (arith, picked-cons test ev es ks)

once-absent :
    (test : HistKey → Bool) (j : HistKey) (ks : List HistKey)
    → contains j ks ≡ false
    → once test j ks ≡ 0
once-absent test j [] h = refl
once-absent test j (k ∷ ks) h =
    ground (arith, once-absent test j ks, key_eq_iff j k, key_eq_iff k j)

once-present :
    (test : HistKey → Bool) (j : HistKey) (ks : List HistKey)
    → Distinct ks
    → contains j ks ≡ true
    → once test j ks ≡ (if test j then 1 else 0)
once-present test j [] d h = absurd (cc)
once-present test j (k ∷ ks) d h = elim (Bool-cases (key_eq k j)) [
  | inl hit ↦
      let same : k ≡ j = (key_eq_iff k j).0 hit in
      let last : contains j ks ≡ false = cc (d.0, same) in
      ground (arith, once-absent test j ks last, ap test same, (key_eq_iff j k).1 (sym same))
  | inr miss ↦
      let other : key_eq j k ≡ false = ground (arith, miss, key_eq_iff j k, key_eq_iff k j) in
      ground (arith, other, once-present test j ks d.1, miss, h)
]

-- Added up over distinct keys among which are those of all requests, each request counts once.
pub picked_lem :
    (test : HistKey → Bool) (es : List Event) (ks : List HistKey)
    → Distinct ks
    → ((j : HistKey) → 0 < occurrences j es → contains j ks ≡ true)
    → picked test es ks ≡ requests test es
picked_lem test [] ks d h = picked-nil test ks
picked_lem test (ev ∷ es) ks d h =
    let here : contains (event_key ev) ks ≡ true =
      h (event_key ev) (ground (arith, (key_eq_iff (event_key ev) (event_key ev)).1 refl)) in
    omega (
      arith,
      picked-cons test ev es ks,
      once-present test (event_key ev) ks d here,
      picked_lem test es ks d (λ j p. h j (ground (arith, p))),
    )
