-- ===== src/Probes/Filters.antt =====
-- Probes that pass on some events: tools/BPF-tools/old/2014-02-05/bigreads.c reports the big reads,
-- tools/BPF-tools/old/2017-02-19/kca_from.c the callers in a range of addresses.
use prog_playground.Prelude.{ℕ, ◌*◌, Option, none, some, ◌&&◌, leb, ltb, if◌then◌else◌}

abbrev pub min_bytes : ℕ
min_bytes = 1024 * 1024

-- The number of bytes in the trace line; `arg3` is the third argument of the traced function.
unfoldable pub my_filter : (arg3 : ℕ) → Option ℕ
my_filter arg3 = if leb min_bytes arg3 then some arg3 else none

abbrev pub range_start : ℕ
range_start = 0xffffffff817c1bb0

abbrev pub range_end : ℕ
range_end = 0xffffffff8187bd89

-- `ret` stays 0 when the read of the return address, in the 8 bytes above the frame pointer, fails.
abbrev pub return_address : Option ℕ → ℕ
return_address none = 0
return_address (some address) = address

-- What is sent to user space.
unfoldable pub func : (read : Option ℕ) → Option ℕ
func read =
    let ret = return_address read in
    if leb range_start ret && ltb ret range_end then some ret else none
