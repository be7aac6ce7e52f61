-- ===== src/Probes/Counters.antt =====
-- Probes of tools/BPF-tools/old/2015-08-15 that count in an array map: bitehist.c, vfsstat.c and
-- pidpersec.c.
use prog_playground.Prelude.{ℕ, ◌/◌}
use prog_playground.BpfArray.{BpfArray, increment}
use prog_playground.Probes.Vfsreadlat.{log2l}

-- bitehist.c has the same text of `log2` and `log2l` as vfsreadlat.c.
module _ (dist : BpfArray 64) where
  unfoldable pub do_request : (data_len : ℕ) → dist.Array → dist.Array
  do_request data_len a = increment dist (log2l (data_len / 1024)) a

-- `enum stat_types` of vfsstat.c.
pub data StatType : Type 0 where
  s_read s_write s_fsync s_open s_create s_maxstat : StatType

unfoldable pub number : StatType → ℕ
number s_read = 1
number s_write = 2
number s_fsync = 3
number s_open = 4
number s_create = 5
number s_maxstat = 6

-- The size of `stats` is `S_MAXSTAT + 1`.
module _ (stats : BpfArray 7) where
  unfoldable pub stats_increment : (key : ℕ) → stats.Array → stats.Array
  stats_increment key a = increment stats key a

  unfoldable pub do_read : stats.Array → stats.Array
  unfolding number stats_increment
  do_read a = stats_increment (number s_read) a

  unfoldable pub do_write : stats.Array → stats.Array
  unfolding number stats_increment
  do_write a = stats_increment (number s_write) a

  unfoldable pub do_fsync : stats.Array → stats.Array
  unfolding number stats_increment
  do_fsync a = stats_increment (number s_fsync) a

  unfoldable pub do_open : stats.Array → stats.Array
  unfolding number stats_increment
  do_open a = stats_increment (number s_open) a

  unfoldable pub do_create : stats.Array → stats.Array
  unfolding number stats_increment
  do_create a = stats_increment (number s_create) a

-- pidpersec.c: `S_COUNT` is 1 and `S_MAXSTAT` is 2.
module _ (stats : BpfArray 3) where
  unfoldable pub do_count : stats.Array → stats.Array
  do_count a = increment stats 1 a
