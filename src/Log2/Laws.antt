-- ===== src/Log2/Laws.antt =====
-- `log2` and `log2l` are the integer logarithm.
use native.Mathlib.Nat.{pow-suc}
use prog_playground.Prelude.{holds_below, holds_below_lem}
use prog_playground.Prelude.{ℕ, suc, ◌+◌, ◌*◌, ◌/◌, ◌%◌, ◌^◌, ◌≤◌, ◌<◌, arith, bit_or}
use prog_playground.Prelude.{
  ◌≡◌, refl, Bool, true, ◌&&◌, ◌||◌, ◌==◌, ltb, Bool-cases, inl, inr, ltb→lt, not_ltb→le,
}
use prog_playground.Log2.{below_4, below_16, below_256, below_65536, log2}

-- A shift of 0, 1, 2, 4 or 8 that lies below the bits of `r` is added to it.
abbrev adds : ℕ → ℕ → Bool
adds s r = ltb 0 (r % (2 * s)) || bit_or r s == r + s

or_table :
    holds_below 32 (λ r. bit_or r 0 == r && adds 1 r && adds 2 r && adds 4 r && adds 8 r) ≡ true
unfolding holds_below
or_table = refl

or_zero : (r : ℕ) → r < 32 → bit_or r 0 ≡ r
or_zero r h = ground (arith, holds_below_lem 32 _ or_table r h)

or_one : (r : ℕ) → r < 32 → r % 2 ≡ 0 → bit_or r 1 ≡ r + 1
or_one r h e = ground (arith, holds_below_lem 32 _ or_table r h)

or_two : (r : ℕ) → r < 32 → r % 4 ≡ 0 → bit_or r 2 ≡ r + 2
or_two r h e = ground (arith, holds_below_lem 32 _ or_table r h)

or_four : (r : ℕ) → r < 32 → r % 8 ≡ 0 → bit_or r 4 ≡ r + 4
or_four r h e = ground (arith, holds_below_lem 32 _ or_table r h)

or_eight : (r : ℕ) → r < 32 → r % 16 ≡ 0 → bit_or r 8 ≡ r + 8
or_eight r h e = ground (arith, holds_below_lem 32 _ or_table r h)

-- `i` is `r` plus the logarithm of `v`.
abbrev pub LogFrom : ℕ → ℕ → ℕ → Type 0
LogFrom r v i = (e : ℕ) × (i ≡ r + e) × (2 ^ e ≤ v) × (v < 2 ^ suc e)

-- One bit shifted out moves the logarithm up by one.
LogFrom-half : (r s v w i : ℕ) → s ≡ r + 1 → w ≡ v / 2 → LogFrom s w i → LogFrom r v i
LogFrom-half r s v w i es ew (e, eq, lo, hi) =
    (suc e, omega arith, omega (arith, pow-suc 2 e), omega (arith, pow-suc 2 e, pow-suc 2 (suc e)))

LogFrom-shift2 : (r s v w i : ℕ) → s ≡ r + 2 → w ≡ v / 4 → LogFrom s w i → LogFrom r v i
LogFrom-shift2 r s v w i es ew h =
    LogFrom-half r (r + 1) v (v / 2) i refl refl
      (LogFrom-half (r + 1) s (v / 2) w i (omega arith) (omega arith) h)

LogFrom-shift4 : (r s v w i : ℕ) → s ≡ r + 4 → w ≡ v / 16 → LogFrom s w i → LogFrom r v i
LogFrom-shift4 r s v w i es ew h =
    LogFrom-shift2 r (r + 2) v (v / 4) i refl refl
      (LogFrom-shift2 (r + 2) s (v / 4) w i (omega arith) (omega arith) h)

LogFrom-shift8 : (r s v w i : ℕ) → s ≡ r + 8 → w ≡ v / 256 → LogFrom s w i → LogFrom r v i
LogFrom-shift8 r s v w i es ew h =
    LogFrom-shift4 r (r + 4) v (v / 16) i refl refl
      (LogFrom-shift4 (r + 4) s (v / 16) w i (omega arith) (omega arith) h)

pub LogFrom-shift16 : (r s v w i : ℕ) → s ≡ r + 16 → w ≡ v / 65536 → LogFrom s w i → LogFrom r v i
LogFrom-shift16 r s v w i es ew h =
    LogFrom-shift8 r (r + 8) v (v / 256) i refl refl
      (LogFrom-shift8 (r + 8) s (v / 256) w i (omega arith) (omega arith) h)

LogFrom-same : (r v w i : ℕ) → w ≡ v → LogFrom r w i → LogFrom r v i
LogFrom-same r v w i ew (e, eq, lo, hi) = (e, eq, omega arith, omega arith)

below_4-LogFrom : (r v : ℕ) → r < 32 → r % 2 ≡ 0 → 0 < v → v < 4 → LogFrom r v (below_4 r v)
unfolding below_4
below_4-LogFrom r v b m p h = elim (Bool-cases (ltb 1 v)) [
  | inl big ↦
      let above = ltb→lt 1 v big in
      let one : v / 2 ≡ 1 = omega arith in (1, rw one (or_one r b m), omega arith, omega arith)
  | inr small ↦
      let below = not_ltb→le 1 v small in
      let none_left : v / 2 ≡ 0 = omega arith in
      (0, rw (none_left, or_zero r b) (omega arith), omega arith, omega arith)
]

below_16-LogFrom : (r v : ℕ) → r < 32 → r % 4 ≡ 0 → 0 < v → v < 16 → LogFrom r v (below_16 r v)
unfolding below_16
below_16-LogFrom r v b m p h = elim (Bool-cases (ltb 3 v)) [
  | inl big ↦
      let above = ltb→lt 3 v big in
      let deeper =
        below_4-LogFrom (r + 2) (v / 4) (omega arith) (omega arith) (omega arith) (omega arith) in
      rw (big, or_two r b m) (LogFrom-shift2 r (r + 2) v (v / 4) _ refl refl deeper)
  | inr small ↦
      let below = not_ltb→le 3 v small in
      let deeper = below_4-LogFrom r (v / 1) b (omega arith) (omega arith) (omega arith) in
      rw (small, or_zero r b) (LogFrom-same r v (v / 1) _ (omega arith) deeper)
]

below_256-LogFrom : (r v : ℕ) → r < 32 → r % 8 ≡ 0 → 0 < v → v < 256 → LogFrom r v (below_256 r v)
unfolding below_256
below_256-LogFrom r v b m p h = elim (Bool-cases (ltb 15 v)) [
  | inl big ↦
      let above = ltb→lt 15 v big in
      let deeper =
        below_16-LogFrom (r + 4) (v / 16) (omega arith) (omega arith) (omega arith) (omega arith) in
      rw (big, or_four r b m) (LogFrom-shift4 r (r + 4) v (v / 16) _ refl refl deeper)
  | inr small ↦
      let below = not_ltb→le 15 v small in
      let deeper = below_16-LogFrom r (v / 1) b (omega arith) (omega arith) (omega arith) in
      rw (small, or_zero r b) (LogFrom-same r v (v / 1) _ (omega arith) deeper)
]

below_65536-LogFrom :
    (r v : ℕ) → r < 32 → r % 16 ≡ 0 → 0 < v → v < 65536 → LogFrom r v (below_65536 r v)
unfolding below_65536
below_65536-LogFrom r v b m p h = elim (Bool-cases (ltb 255 v)) [
  | inl big ↦
      let above = ltb→lt 255 v big in
      let deeper =
        below_256-LogFrom (r + 8) (v / 256) (omega arith) (omega arith) (omega arith)
          (omega arith) in
      rw (big, or_eight r b m) (LogFrom-shift8 r (r + 8) v (v / 256) _ refl refl deeper)
  | inr small ↦
      let below = not_ltb→le 255 v small in
      let deeper = below_256-LogFrom r (v / 1) b (omega arith) (omega arith) (omega arith) in
      rw (small, or_zero r b) (LogFrom-same r v (v / 1) _ (omega arith) deeper)
]

pub log2-LogFrom : (v : ℕ) → 0 < v → v < 2 ^ 32 → LogFrom 0 v (log2 v)
unfolding log2
log2-LogFrom v p h = elim (Bool-cases (ltb 65535 v)) [
  | inl big ↦
      let above = ltb→lt 65535 v big in
      let deeper =
        below_65536-LogFrom 16 (v / 65536) (omega arith) refl (omega arith) (omega arith) in
      rw big (LogFrom-shift16 0 16 v (v / 65536) _ refl refl deeper)
  | inr small ↦
      let below = not_ltb→le 65535 v small in
      let deeper = below_65536-LogFrom 0 (v / 1) (omega arith) refl (omega arith) (omega arith) in
      rw small (LogFrom-same 0 v (v / 1) _ (omega arith) deeper)
]

pub LogFrom-bounds : (v i : ℕ) → LogFrom 0 v i → (2 ^ i ≤ v) × (v < 2 ^ suc i)
LogFrom-bounds v i (e, eq, lo, hi) = let same : i ≡ e = omega arith in (rw same lo, rw same hi)

pub log2_bounds : (v : ℕ) → 0 < v → v < 2 ^ 32 → (2 ^ log2 v ≤ v) × (v < 2 ^ suc (log2 v))
log2_bounds v p h = LogFrom-bounds v (log2 v) (log2-LogFrom v p h)
