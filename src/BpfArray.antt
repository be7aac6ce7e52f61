-- ===== src/BpfArray.antt =====
-- The kernel's array maps (`BPF_TABLE("array", ...)`), which are not part of the repository: an
-- interface with their documented behaviour. A lookup gives a pointer to the element, through
-- which the probes write.
use prog_playground.Prelude.{
  ℕ, ◌+◌, ◌%◌, ◌^◌, ◌≡◌, ap, arith, inl, inr, true, ◌&&◌, Option, none, some, ltb, ◌==◌,
  if◌then◌else◌, ==_iff, Option-cases,
}
use prog_playground.BpfMap.{is_some}

pub record BpfArray (size : ℕ) : Type 1 where
  pub Array : Type 0
  pub at : Array → ℕ → Option ℕ
  pub write : Array → ℕ → ℕ → Array
  pub is_some-at : (a : Array) (i : ℕ) → is_some (at a i) ≡ ltb i size
  pub at-write :
      (a : Array) (i j v : ℕ)
      → ltb i size ≡ true
      → at (write a i v) j ≡ (if i == j then some v else at a j)

abbrev pub value_of : Option ℕ → ℕ
value_of none = 0
value_of (some v) = v

module _ {size : ℕ} (b : BpfArray size) where
  open b use {Array, at, write, is_some-at, at-write}

  abbrev pub value_at : Array → ℕ → ℕ
  value_at a i = value_of (at a i)

  -- `u64 *leaf = dist.lookup(&index); if (leaf) (*leaf)++;`
  unfoldable pub increment : ℕ → Array → Array
  increment i a = elim (at a i) [ none ↦ a | some v ↦ write a i ((v + 1) % 2 ^ 64) ]

  pub value_at-increment :
      (i j : ℕ) (a : Array)
      → value_at (increment i a) j
        ≡ (if i == j && ltb i size then (value_at a j + 1) % 2 ^ 64 else value_at a j)
  unfolding increment
  value_at-increment i j a = elim (Option-cases (at a i)) [
    | inl outside ↦ rw (outside, increment) (ground (arith, is_some-at a i, outside))
    | inr (v, inside) ↦
        let within : ltb i size ≡ true = cc (is_some-at a i, ap is_some inside) in
        rw (inside, increment, at-write a i j ((v + 1) % 2 ^ 64) within)
          (ground (arith, within, ==_iff i j, same_value i j inside))
  ]
    where
      same_value : {o : Option ℕ} (k l : ℕ) → at a k ≡ o → k ≡ l → value_at a l ≡ value_of o
      same_value k l e p = rw (← p, e)

-- Functions satisfy the interface.
abbrev pub fetch : ℕ → (ℕ → ℕ) → ℕ → Option ℕ
fetch size a i = if ltb i size then some (a i) else none

abbrev pub store : (ℕ → ℕ) → ℕ → ℕ → ℕ → ℕ
store a i v j = if i == j then v else a j

pub is_some-fetch : (size : ℕ) (a : ℕ → ℕ) (i : ℕ) → is_some (fetch size a i) ≡ ltb i size
is_some-fetch size a i = ground arith

pub fetch-store :
    (size : ℕ) (a : ℕ → ℕ) (i j v : ℕ)
    → ltb i size ≡ true
    → fetch size (store a i v) j ≡ (if i == j then some v else fetch size a j)
fetch-store size a i j v h = ground (arith, ==_iff i j)

abbrev pub function_array : (size : ℕ) → BpfArray size
function_array size = record {
  Array = ℕ → ℕ;
  at = fetch size;
  write = store;
  is_some-at = is_some-fetch size;
  at-write = fetch-store size;
}
