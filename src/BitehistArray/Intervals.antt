-- ===== src/BitehistArray/Intervals.antt =====
-- What an interval of the first bitehist prints, and what it leaves.
use prog_playground.Prelude.{
  ℕ, zero, suc, ◌+◌, ◌-◌, ◌^◌, ◌≤◌, ◌<◌, ◌≡◌, ◌∙◌, ap, refl, ltb→lt, not_ltb→le, ◌⊎◌, sym, inl, inr,
  some, ◌∷◌, arith, ltb, lt→ltb, ◌==◌, ==_iff, if◌then◌else◌, Option-cases, Bool-cases, true,
}
use prog_playground.BpfMap.{is_some}
use prog_playground.BpfArray.{BpfArray, value_at}
use prog_playground.Histogram.{Hist, heading, bound_of, print_row, print_rows, print_all_rows}
use prog_playground.Histogram.Tally.{IsTight}
use prog_playground.Histogram.Rows.{expected_rows, print_all_rows_lem}
use prog_playground.Bitesize.User.{is_nonzero}
use prog_playground.Bitehist.{value_or}
use prog_playground.BitehistArray.{
  no_buckets, enter, read_keys, print_log2_hist, clear_from, clear_array,
}

-- The variables of `print_log2_hist` before the round for `key`.
record HasRead (f : ℕ → ℕ) (key : ℕ) (s : Hist) : Type 0 where
  entered : (i : ℕ) → i < key → s.counts i ≡ f i
  unread : (i : ℕ) → key ≤ i → s.counts i ≡ 0
  from_zero : s.min_ind ≡ 0
  below : s.max_value < 2 ^ 57
  tight : IsTight 62 s

no_buckets-HasRead : (f : ℕ → ℕ) (junk : ℕ) → HasRead f 0 (no_buckets junk)
unfolding no_buckets
no_buckets-HasRead f junk = record {
  entered = λ i h. absurd (omega arith);
  unread = λ i h. refl;
  from_zero = refl;
  below = omega arith;
  tight = grind arith;
}

enter-HasRead :
    (f : ℕ → ℕ) (key value : ℕ) (s : Hist)
    → value ≡ f key
    → value < 2 ^ 57
    → (62 ≤ key → value ≡ 0)
    → HasRead f key s
    → HasRead f (key + 1) (enter s value key)
unfolding enter
enter-HasRead f key value s e small top r = record {
  entered = λ i h. ground (arith, r.entered i);
  unread = λ i h. ground (arith, r.unread i);
  from_zero = r.from_zero;
  below = ground (arith, r.below);
  tight = record {
    from_min = λ i p. omega (arith, r.from_zero);
    to_max = λ i p. ground (arith, r.tight.to_max i);
    peak = λ i. ground (arith, r.tight.peak i);
    live = λ p. ground (arith, r.tight.live);
    capped = ground (arith, r.tight.capped);
  };
}

end_key : (key : ℕ) → key + 0 ≡ 64 → key ≡ 64
end_key key e = omega arith

-- The loop over the rows starts at the bucket 0.
rows_from_zero :
    (s : Hist)
    → s.min_ind ≡ 0
    → IsTight 62 s
    → s.max_value < 2 ^ 57
    → print_rows s (bound_of s.max_ind) 1 ≡ some (expected_rows s (bound_of s.max_ind) 0)
unfolding print_all_rows print_rows print_row
rows_from_zero s z t h =
    let loop : bound_of s.max_ind + 1 - 1 ≡ bound_of s.max_ind = omega arith in
    let all : bound_of s.max_ind - 0 ≡ bound_of s.max_ind = omega arith in
    rw (z, loop, all) at (print_all_rows_lem s t (omega arith))

module _ (hist_map : BpfArray 64) where
  open hist_map use {Array, at, write, is_some-at, at-write}

  value_inside : (a : Array) (i old : ℕ) → i < 64 → value_or (at a i) old ≡ value_at hist_map a i
  value_inside a i old h = elim (Option-cases (at a i)) [
    | inl outside ↦ absurd (cc (is_some-at a i, ap is_some outside, lt→ltb i 64 h))
    | inr (v, inside) ↦ rw inside refl
  ]

  read_keys_lem :
      (a : Array) (rounds key : ℕ) (s : Hist)
      → key + rounds ≡ 64
      → ((i : ℕ) → value_at hist_map a i < 2 ^ 57)
      → ((i : ℕ) → 62 ≤ i → value_at hist_map a i ≡ 0)
      → HasRead (value_at hist_map a) key s
      → (s' : Hist) × (read_keys hist_map a rounds key s ≡ some s')
        × HasRead (value_at hist_map a) 64 s'
  unfolding read_keys
  read_keys_lem a zero key s e small top r = (s, refl, rw (end_key key e) at r)
  read_keys_lem a (suc rounds) key s e small top r =
      let same : value_or (at a key) s.value ≡ value_at hist_map a key =
        value_inside a key s.value (omega arith) in
      let fits : ltb (value_at hist_map a key) (2 ^ 63) ≡ true =
        lt→ltb (value_at hist_map a key) (2 ^ 63) (omega (arith, small key)) in
      let (s', run, read) =
        read_keys_lem a rounds (key + 1) (enter s (value_at hist_map a key) key) (omega arith) small
          top
          (enter-HasRead (value_at hist_map a) key (value_at hist_map a key) s refl (small key)
            (top key) r) in
      (s', rw (same, fits, read_keys) run, read)

  -- If the counts of the array are below 2 ^ 57 and those from the index 62 on are 0,
  -- print_log2_hist of the bitehist of 2015 prints without undefined behaviour: rows in order from
  -- the bucket 0 to an index below 62 behind which every bucket is empty, each with the count of
  -- the array, under a heading unless the highest index is 0.
  pub print_log2_hist_array :
      (junk : ℕ) (a : Array)
      → ((i : ℕ) → value_at hist_map a i < 2 ^ 57)
      → ((i : ℕ) → 62 ≤ i → value_at hist_map a i ≡ 0)
      → (s : Hist) × (print_log2_hist hist_map junk a
          ≡ some (
              let rows = expected_rows s (bound_of s.max_ind) 0 in
              if is_nonzero s.max_ind then heading ∷ rows else rows))
        × IsTight 62 s
        × ((i : ℕ) → s.counts i ≡ value_at hist_map a i)
  unfolding print_log2_hist
  print_log2_hist_array junk a small top =
      let (s, run, read) =
        read_keys_lem a 64 0 (no_buckets junk) refl small top
          (no_buckets-HasRead (value_at hist_map a) junk) in
      let rows = rows_from_zero s read.from_zero read.tight read.below in
      (
        s,
        rw (run, rows, print_log2_hist) refl,
        read.tight,
        λ i. elim (Bool-cases (ltb i 64)) [
          | inl inside ↦ read.entered i (ltb→lt i 64 inside)
          | inr outside ↦
              let past = not_ltb→le i 64 outside in read.unread i past ∙ sym (top i (omega arith))
        ],
      )

  value_at-cleared :
      (key i : ℕ) (a : Array)
      → key < 64
      → (key ≡ i) ⊎ (value_at hist_map a i ≡ 0)
      → value_at hist_map (write a key 0) i ≡ 0
  value_at-cleared key i a h c =
      rw (at-write a key i 0 (lt→ltb key 64 h)) (ground (arith, ==_iff key i))

  value_at-clear_from :
      (rounds key i : ℕ) (a : Array)
      → key + rounds ≡ 64
      → i < 64
      → (key ≤ i) ⊎ (value_at hist_map a i ≡ 0)
      → value_at hist_map (clear_from hist_map rounds key a) i ≡ 0
  unfolding clear_from
  value_at-clear_from zero key i a e hi (inl lo) = absurd (omega arith)
  value_at-clear_from zero key i a e hi (inr clear) = clear
  value_at-clear_from (suc rounds) key i a e hi (inl lo) = elim (Bool-cases (key == i)) [
    | inl here ↦
        value_at-clear_from rounds (key + 1) i (write a key 0) (omega arith) hi
          (inr (value_at-cleared key i a (omega arith) (inl ((==_iff key i).0 here))))
    | inr further ↦
        value_at-clear_from rounds (key + 1) i (write a key 0) (omega arith) hi
          (inl (ground (arith, ==_iff key i)))
  ]
  value_at-clear_from (suc rounds) key i a e hi (inr clear) =
      value_at-clear_from rounds (key + 1) i (write a key 0) (omega arith) hi
        (inr (value_at-cleared key i a (omega arith) (inr clear)))

  pub value_at-clear_array :
      (a : Array) (i : ℕ) → i < 64 → value_at hist_map (clear_array hist_map a) i ≡ 0
  unfolding clear_array
  value_at-clear_array a i h = value_at-clear_from 64 0 i a refl h (inl (omega arith))
