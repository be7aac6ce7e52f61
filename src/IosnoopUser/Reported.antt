-- ===== src/IosnoopUser/Reported.antt =====
-- A request's latency, from the two probes in the kernel to the row that the reader prints.
use prog_playground.Prelude.{
  nat_eq, ℕ, ◌+◌, ◌-◌, ◌*◌, ◌/◌, ◌%◌, ◌^◌, ◌≤◌, ◌<◌, ◌≡◌, ◌≢◌, inl, inr, ◌∙◌, refl, ap, sym, arith,
  false, not, Option, none, some, List, [], ◌∷◌, ◌++◌, ltb, ◌==◌, if◌then◌else◌, decimal,
  Bool-cases, codes, bit_and, lt→ltb, ltb→lt, not_ltb→le,
}
use native.Mathlib.Nat.{mod-eq_of_lt}
use prog_playground.BpfMap.{BpfMap}
use prog_playground.Probes.Iosnoop.{Trace, bpf_prog2}
use prog_playground.Probes.Pairing.{
  Event, starts, begun, map_after, line_for, trace_of, reported_latency,
}
use prog_playground.IosnoopUser.Line.{Text, Row, is_zero_text, type_of, read_line}
use prog_playground.IosnoopUser.Printed.{
  Place, pipe_line, print_int, hexadecimal, message, strtol_16-hexadecimal, decimal-ne-nil,
}
use prog_playground.IosnoopUser.Delivery.{IsPlace, read_line-pipe_line}

-- What the second column is to say.
abbrev pub kind : (req_write flags bytes : ℕ) → Text
kind req_write flags bytes =
    if not (bit_and flags req_write == 0)
    then codes "W"
    else if bytes == 0
    then codes "M"
    else codes "R"

print_int-decimal : (n : ℕ) → n < 2 ^ 31 → print_int n ≡ decimal 10 n
unfolding print_int
print_int-decimal n h =
    let same : n % 2 ^ 32 ≡ n = omega arith in rw (same, lt→ltb n (2 ^ 31) h, print_int) refl

-- A text of two bytes or more is not "0".
longer : (xs : List ℕ) (c : ℕ) → xs ≢ [] → is_zero_text (some (xs ++ c ∷ [])) ≡ false
longer [] c h = absurd (h refl)
longer (x ∷ []) c h = refl
longer (x ∷ y ∷ xs) c h = refl

is_zero_text-decimal : (n : ℕ) → is_zero_text (some (decimal 10 n)) ≡ (n == 0)
is_zero_text-decimal n = elim (Bool-cases (ltb n 10)) [
  | inl small ↦ unfold decimal in (rw (small, decimal) (ground (arith, ltb→lt n 10 small)))
  | inr large ↦
      unfold decimal in
      (rw (large, decimal)
        (longer (decimal 9 (n / 10)) (n % 10 + b'0') (decimal-ne-nil 8 (n / 10))
          ∙ sym (not_zero n (not_ltb→le n 10 large))))
]
  where
    not_zero : (k : ℕ) → 10 ≤ k → (k == 0) ≡ false
    not_zero k h = ground arith

type_of-kind : (req_write g n : ℕ) → type_of req_write g (some (decimal 10 n)) ≡ kind req_write g n
unfolding type_of
type_of-kind req_write g n = rw (is_zero_text-decimal n) refl

-- What the reader makes of the line of a probe, if there is one.
abbrev pub shown_for : (req_write : ℕ) → Place → Option Trace → Option Row
shown_for req_write p none = none
shown_for req_write p (some t) = read_line req_write (pipe_line p (message t))

shown_for-trace_of :
    (req_write n g us : ℕ) (p : Place)
    → IsPlace p
    → n < 2 ^ 31
    → g < 2 ^ 32
    → us < 2 ^ 31
    → shown_for req_write p (some (trace_of n g us))
      ≡ some (record {
        time_s = p.time;
        type_s = kind req_write g n;
        flags_s = some (hexadecimal 8 g);
        bytes_s = some (decimal 10 n);
        lat_us_s = some (decimal 10 us);
      })
shown_for-trace_of req_write n g us p is_place hn hg hus =
    read_line-pipe_line req_write p is_place (trace_of n g us)
    ∙ rw
        (
          mod-eq_of_lt hg,
          print_int-decimal n hn,
          print_int-decimal us hus,
          strtol_16-hexadecimal g hg,
          type_of-kind req_write g n,
        )
        refl

module _ (start_ts : BpfMap ℕ ℕ) where
  open start_ts use {Map, max_entries, keys}

  -- If the map of iosnoop was empty when its probes began and has room for every start, and a
  -- request that started is completed within 2 ^ 31 microseconds and by 2 ^ 64 nanoseconds, with a
  -- length below 2 ^ 31 and flags below 2 ^ 32, then the line that the kernel writes for its
  -- completion, at a place whose parts do not hold the separators, is read by iosnoop as a row
  -- with that time, the kind of the request, its flags, its length and the microseconds since it
  -- started.
  pub latency_printed :
      (req_write : ℕ) (p : Place) (es : List Event) (m : Map) (rq now n g start : ℕ)
      → IsPlace p
      → keys m ≡ []
      → starts es ≤ max_entries
      → begun rq es ≡ some start
      → start ≤ now
      → now < 2 ^ 64
      → now - start < 2 ^ 31 * 1000
      → n < 2 ^ 31
      → g < 2 ^ 32
      → shown_for req_write p (bpf_prog2 start_ts rq now n g (map_after start_ts es m)).1
        ≡ some (record {
          time_s = p.time;
          type_s = kind req_write g n;
          flags_s = some (hexadecimal 8 g);
          bytes_s = some (decimal 10 n);
          lat_us_s = some (decimal 10 ((now - start) / 1000));
        })
  latency_printed req_write p es m rq now n g start is_place empty room began past clock short hn
        hg =
      ap (shown_for req_write p) (
        (reported_latency start_ts es m rq now n g empty room (λ t e. ground arith) clock).0
        ∙ ap (line_for now n g) began)
      ∙ shown_for-trace_of req_write n g ((now - start) / 1000) p is_place hn hg (omega arith)
