-- ===== src/Probes/Iosnoop.antt =====
-- Latency of block requests. tools/BPF-tools/old/2015-03-25/iosnoop_kern.c stores the time of a
-- request's start in a hash map under the request's address, and prints a trace line at its
-- completion; tools/BPF-tools/old/2015-08-15/disksnoop.c does the same through BCC.
use prog_playground.Prelude.{ℕ, ◌+◌, ◌-◌, ◌/◌, ◌%◌, ◌^◌, Option, none, some, nat_eq}
use prog_playground.BpfMap.{BpfMap}

-- The three numbers of the trace line "%d %x %d".
pub record Trace : Type 0 where
  pub data_len : ℕ
  pub cmd_flags : ℕ
  pub lat_us : ℕ

-- Subtraction of `u64`.
unfoldable pub sub_u64 : ℕ → ℕ → ℕ
sub_u64 a b = (a + (2 ^ 64 - b % 2 ^ 64)) % 2 ^ 64

module _ (start_ts : BpfMap ℕ ℕ) where
  open start_ts use {Map, lookup, update, delete}

  -- `rq` is the register with the address of the request, `val` the clock.
  unfoldable pub bpf_prog1 : (rq val : ℕ) → Map → Map
  bpf_prog1 rq val m = update m rq val

  -- The map after the probe, and the line that it prints, if any.
  unfoldable pub bpf_prog2 : (rq cur_time data_len cmd_flags : ℕ) → Map → Map × Option Trace
  unfolding sub_u64
  bpf_prog2 rq cur_time data_len cmd_flags m = elim (lookup m rq) [
    | none ↦ (m, none)
    | some value ↦ (
      delete m rq,
      some (record {
        data_len = data_len;
        cmd_flags = cmd_flags;
        lat_us = sub_u64 cur_time value / 1000;
      }),
    )
  ]

  -- disksnoop.c
  unfoldable pub do_request : (ts req : ℕ) → Map → Map
  do_request ts req m = update m req ts

  unfoldable pub do_completion : (now req data_len cmd_flags : ℕ) → Map → Map × Option Trace
  unfolding sub_u64
  do_completion now req data_len cmd_flags m = elim (lookup m req) [
    | none ↦ (m, none)
    | some ts ↦
        let delta = sub_u64 now ts in
        let line : Trace = record {
          data_len = data_len;
          cmd_flags = cmd_flags;
          lat_us = delta / 1000;
        } in
        (delete m req, some line)
  ]
