-- ===== src/Log2.antt =====
-- The bucket index of a value: `log2` and `log2l` of
-- tools/BPF-tools/new/2019-05-21/bitesize_kern.c, which the other kernel-side files copy.
pub mod Laws
pub mod Long
use prog_playground.Prelude.{ℕ, ◌+◌, ◌*◌, ◌/◌, ◌%◌, ◌^◌, bit_or, ltb, ◌==◌, flag, if◌then◌else◌}

-- The lines of `log2` from the last one up, each a function of `r` and `v` as they stand there.
-- `unsigned int` is 32 bits wide; no shift here loses a bit, so no reduction is written.
unfoldable pub below_4 : ℕ → ℕ → ℕ
below_4 r v = bit_or r (v / 2 ^ 1)

unfoldable pub below_16 : ℕ → ℕ → ℕ
unfolding below_4
below_16 r v = let shift = flag (ltb 0x3 v) * 2 ^ 1 in below_4 (bit_or r shift) (v / 2 ^ shift)

unfoldable pub below_256 : ℕ → ℕ → ℕ
unfolding below_16
below_256 r v = let shift = flag (ltb 0xf v) * 2 ^ 2 in below_16 (bit_or r shift) (v / 2 ^ shift)

unfoldable pub below_65536 : ℕ → ℕ → ℕ
unfolding below_256
below_65536 r v =
    let shift = flag (ltb 0xff v) * 2 ^ 3 in below_256 (bit_or r shift) (v / 2 ^ shift)

unfoldable pub log2 : ℕ → ℕ
unfolding below_65536
log2 v = let r = flag (ltb 0xffff v) * 2 ^ 4 in below_65536 r (v / 2 ^ r)

-- `unsigned long` is 64 bits wide: the two casts to `unsigned int` cut at 2 ^ 32.
unfoldable pub log2l : ℕ → ℕ
unfolding log2
log2l v =
    let hi = v / 2 ^ 32 % 2 ^ 32 in if hi == 0 then log2 (v % 2 ^ 32) else (log2 hi + 32) % 2 ^ 32
