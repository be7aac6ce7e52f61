-- ===== src/Probes/Stats.antt =====
-- The counters of vfsstat.c.
use prog_playground.Prelude.{
  ℕ, ◌+◌, ◌%◌, ◌^◌, ◌<◌, ◌≡◌, ◌∙◌, List, [], ◌∷◌, arith, ◌==◌, if◌then◌else◌,
}
use prog_playground.BpfArray.{BpfArray, value_at, value_at-increment}
use prog_playground.Probes.Counters.{
  StatType, s_read, s_write, s_fsync, s_open, s_create, number, stats_increment, do_read, do_write,
  do_fsync, do_open, do_create,
}

-- A call of one of the traced functions of the kernel.
pub data Call : Type 0 where
  vfs_read vfs_write vfs_fsync vfs_open vfs_create : Call

abbrev pub stat_of : Call → StatType
stat_of vfs_read = s_read
stat_of vfs_write = s_write
stat_of vfs_fsync = s_fsync
stat_of vfs_open = s_open
stat_of vfs_create = s_create

abbrev pub occurrences : ℕ → List Call → ℕ
occurrences key [] = 0
occurrences key (c ∷ cs) = (if number (stat_of c) == key then 1 else 0) + occurrences key cs

module _ (stats : BpfArray 7) where
  open stats use {Array}

  -- vfsstat.py attaches each probe to the function of its name.
  unfoldable pub run_probe : Call → Array → Array
  run_probe vfs_read a = do_read stats a
  run_probe vfs_write a = do_write stats a
  run_probe vfs_fsync a = do_fsync stats a
  run_probe vfs_open a = do_open stats a
  run_probe vfs_create a = do_create stats a

  -- The last call stands first.
  unfoldable pub stats_after : List Call → Array → Array
  stats_after [] a = a
  stats_after (c ∷ cs) a = run_probe c (stats_after cs a)

  value_at-run_probe :
      (c : Call) (key : ℕ) (a : Array)
      → value_at stats (run_probe c a) key ≡ (
          if number (stat_of c) == key
          then (value_at stats a key + 1) % 2 ^ 64
          else value_at stats a key)
  unfolding run_probe number stats_increment do_read do_write do_fsync do_open do_create
  value_at-run_probe vfs_read key a = value_at-increment stats 1 key a ∙ ground arith
  value_at-run_probe vfs_write key a = value_at-increment stats 2 key a ∙ ground arith
  value_at-run_probe vfs_fsync key a = value_at-increment stats 3 key a ∙ ground arith
  value_at-run_probe vfs_open key a = value_at-increment stats 4 key a ∙ ground arith
  value_at-run_probe vfs_create key a = value_at-increment stats 5 key a ∙ ground arith

  -- After any calls of the five traced functions every element of the array of vfsstat.c, if it
  -- held a 64-bit value, has grown, modulo 2 ^ 64, by the number of calls that have its index in
  -- the enumeration.
  pub stats_after_lem :
      (cs : List Call) (a : Array) (key : ℕ)
      → value_at stats a key < 2 ^ 64
      → value_at stats (stats_after cs a) key ≡ (value_at stats a key + occurrences key cs) % 2 ^ 64
  unfolding stats_after
  stats_after_lem [] a key w = omega arith
  stats_after_lem (c ∷ cs) a key w =
      value_at-run_probe c key (stats_after cs a) ∙ ground (arith, stats_after_lem cs a key w)
