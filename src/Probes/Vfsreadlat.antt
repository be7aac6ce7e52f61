-- ===== src/Probes/Vfsreadlat.antt =====
-- Latency of VFS reads as a histogram, tools/BPF-tools/old/2015-08-15/vfsreadlat.c.
use prog_playground.Prelude.{ℕ, ◌+◌, ◌/◌, ◌%◌, ◌^◌, none, some, ◌==◌, if◌then◌else◌, nat_eq}
use prog_playground.BpfMap.{BpfMap}
use prog_playground.BpfArray.{BpfArray, increment}
use prog_playground.Log2
use prog_playground.Probes.Iosnoop.{sub_u64}

-- The file has the same text of `log2` as bitesize_kern.c.
unfoldable pub log2 : ℕ → ℕ
log2 v = Log2.log2 v

-- Unlike the later `log2l`, this one adds one to the index.
unfoldable pub log2l : ℕ → ℕ
unfolding log2
log2l v =
    let hi = v / 2 ^ 32 % 2 ^ 32 in
    if hi == 0 then (log2 (v % 2 ^ 32) + 1) % 2 ^ 32 else (log2 hi + 32 + 1) % 2 ^ 32

-- `key.pid` is 32 bits wide, and keeps the low half of what the helper returns.
unfoldable pub key_of : ℕ → ℕ
key_of pid_tgid = pid_tgid % 2 ^ 32

module _ (start : BpfMap ℕ ℕ) (dist : BpfArray 64) where
  open start use {Map, lookup, update, delete}
  open dist use {Array}

  unfoldable pub do_entry : (pid_tgid ts : ℕ) → Map → Map
  unfolding key_of
  do_entry pid_tgid ts m = update m (key_of pid_tgid) ts

  unfoldable pub do_return : (pid_tgid now : ℕ) → Map → Array → Map × Array
  unfolding key_of sub_u64 log2l
  do_return pid_tgid now m a =
      let key = key_of pid_tgid in
      elim (lookup m key) [
        | none ↦ (m, a)
        | some ts ↦
            let delta = sub_u64 now ts in (delete m key, increment dist (log2l (delta / 1000)) a)
      ]
