-- ===== src/BitehistArray/Requests.antt =====
-- The intervals of the first bitehist: each prints its own requests.
use prog_playground.Prelude.{
  ℕ, zero, suc, ◌+◌, ◌/◌, ◌%◌, ◌^◌, ◌≤◌, ◌<◌, ◌≡◌, ◌∙◌, refl, sym, inl, inr, some, List, [], ◌∷◌,
  arith, ltb, ltb→lt, not_ltb→le, ==_iff, if◌then◌else◌, Bool-cases, map, length, exponent_lt,
  Option-cases,
}
use prog_playground.Log2.{log2l}
use prog_playground.Log2.Long.{log2l_bounds, log2l-zero}
use prog_playground.BpfArray.{BpfArray, value_at, value_at-increment}
use prog_playground.Histogram.{Hist, heading, bound_of}
use prog_playground.Histogram.Tally.{IsTight}
use prog_playground.Histogram.Rows.{expected_rows, row_bounds-log2l}
use prog_playground.Bitesize.User.{is_nonzero}
use prog_playground.Probes.Dist.{in_row, occurrences, AllU32}
use prog_playground.BitehistArray.{bpf_prog1, print_log2_hist, clear_array, run_probe}
use prog_playground.BitehistArray.Intervals.{print_log2_hist_array, value_at-clear_array}

abbrev pub kilobytes : List ℕ → List ℕ
kilobytes ns = map (λ n. n / 1024) ns

log2l_small : (v : ℕ) → v < 2 ^ 22 → log2l v < 22
log2l_small zero h = omega (arith, log2l-zero)
log2l_small (suc v) h =
    exponent_lt (log2l (suc v)) 22 (omega (arith, log2l_bounds (suc v) (omega arith) (omega arith)))

occurrences_high :
    (i : ℕ) (ns : List ℕ) → 22 ≤ i → AllU32 ns → occurrences (suc i) (kilobytes ns) ≡ 0
occurrences_high i [] h u = refl
occurrences_high i (n ∷ ns) h u =
    let small : n / 1024 < 2 ^ 22 = omega (arith, u.0) in
    ground (
      arith,
      occurrences_high i ns h u.1,
      row_bounds-log2l (n / 1024) i (omega arith),
      log2l_small (n / 1024) small,
    )

occurrences-length : (i : ℕ) (ns : List ℕ) → occurrences i (kilobytes ns) ≤ length ns
occurrences-length i [] = omega arith
occurrences-length i (n ∷ ns) = ground (arith, occurrences-length i ns)

module _ (hist_map : BpfArray 64) where
  open hist_map use {Array, at, is_some-at}

  value_at-bpf_prog1 :
      (n i : ℕ) (a : Array)
      → n < 2 ^ 32
      → i < 64
      → value_at hist_map (bpf_prog1 hist_map n a) i ≡ (
          if in_row (suc i) (n / 1024)
          then (value_at hist_map a i + 1) % 2 ^ 64
          else value_at hist_map a i)
  unfolding bpf_prog1
  value_at-bpf_prog1 n i a w h =
      value_at-increment hist_map (log2l (n / 1024)) i a
      ∙ ground (arith, row_bounds-log2l (n / 1024) i (omega arith), ==_iff (log2l (n / 1024)) i)

  value_at-run_probe :
      (ns : List ℕ) (i : ℕ) (a : Array)
      → AllU32 ns
      → i < 64
      → value_at hist_map a i < 2 ^ 64
      → value_at hist_map (run_probe hist_map ns a) i
        ≡ (value_at hist_map a i + occurrences (suc i) (kilobytes ns)) % 2 ^ 64
  unfolding run_probe
  value_at-run_probe [] i a u h w = omega arith
  value_at-run_probe (n ∷ ns) i a u h w =
      let step = value_at-bpf_prog1 n i a u.0 h in
      value_at-run_probe ns i (bpf_prog1 hist_map n a) u.1 h (ground (arith, step))
      ∙ ground (arith, step)

  value_outside : (i : ℕ) (a : Array) → 64 ≤ i → value_at hist_map a i ≡ 0
  value_outside i a h = elim (Option-cases (at a i)) [
    | inl outside ↦ rw outside refl
    | inr (v, inside) ↦ absurd (ground (arith, is_some-at a i, inside))
  ]

  -- After the clearing of an interval the array counts the next one's requests.
  interval_value :
      (ns : List ℕ) (a : Array) (i : ℕ)
      → AllU32 ns
      → length ns < 2 ^ 57
      → value_at hist_map (run_probe hist_map ns (clear_array hist_map a)) i
        ≡ occurrences (suc i) (kilobytes ns)
  interval_value ns a i u h = elim (Bool-cases (ltb i 64)) [
    | inl inside ↦
        let lt = ltb→lt i 64 inside in
        let clear = value_at-clear_array hist_map a i lt in
        value_at-run_probe ns i (clear_array hist_map a) u lt (omega (arith, clear))
        ∙ omega (arith, clear, occurrences-length (suc i) ns)
    | inr outside ↦
        let past = not_ltb→le i 64 outside in
        value_outside i (run_probe hist_map ns (clear_array hist_map a)) past
        ∙ sym (occurrences_high i ns (omega arith) u)
  ]

  -- In the bitehist of 2015, if after clear_array fewer than 2 ^ 57 requests of 32-bit lengths
  -- arrive, print_log2_hist prints without undefined behaviour: rows in order from the bucket 0 to
  -- an index below 62 behind which every bucket is empty, each with the number of those requests
  -- whose kilobytes lie in its range, whatever the array held before, under a heading unless the
  -- highest index is 0.
  pub interval_printed :
      (junk : ℕ) (a : Array) (ns : List ℕ)
      → AllU32 ns
      → length ns < 2 ^ 57
      → (s : Hist) × (print_log2_hist hist_map junk (run_probe hist_map ns (clear_array hist_map a))
          ≡ some (
              let rows = expected_rows s (bound_of s.max_ind) 0 in
              if is_nonzero s.max_ind then heading ∷ rows else rows))
        × IsTight 62 s
        × ((i : ℕ) → s.counts i ≡ occurrences (suc i) (kilobytes ns))
  interval_printed junk a ns u h =
      let values = λ (i : ℕ). interval_value ns a i u h in
      let (s, printed, tight, counted) =
        print_log2_hist_array hist_map junk (run_probe hist_map ns (clear_array hist_map a))
          (λ i. omega (arith, values i, occurrences-length (suc i) ns))
          (λ i top. values i ∙ occurrences_high i ns (omega arith) u) in
      (s, printed, tight, λ i. counted i ∙ values i)
