-- ===== src/Bitesize/Kern.antt =====
-- The probe of bitesize_kern.c: one event adds one to the count of its key.
pub mod Counts
use prog_playground.Prelude.{ℕ, ◌+◌, ◌/◌, ◌%◌, ◌^◌, Option, none, some, List, [], ◌∷◌}
use prog_playground.Log2.{log2l}
use prog_playground.BpfMap.{BpfMap}
use prog_playground.Bitesize.{TaskInfo, HistKey, key_Eq}

-- What the kernel tells the probe about a request: the helpers' results are 64 bits wide, of
-- which the key keeps the low 32, and `comm` has 16 bytes.
pub record Event : Type 0 where
  pub data_len : ℕ
  pub pid_tgid : ℕ
  pub uid_gid : ℕ
  pub comm : List ℕ

unfoldable pub event_key : Event → HistKey
event_key ev = record {
  info = record { pid = ev.pid_tgid % 2 ^ 32; uid = ev.uid_gid % 2 ^ 32; comm = ev.comm };
  index = log2l (ev.data_len / 1024);
}

module _ (hist_map : BpfMap HistKey ℕ) where
  open hist_map use {Map, lookup, update}

  -- `__sync_fetch_and_add` works on the 64 bits of the value that the lookup points to.
  unfoldable pub bpf_prog1 : Event → Map → Map
  bpf_prog1 ev m =
      let key = event_key ev in
      elim (lookup m key) [
        | some value ↦ update m key ((value + 1) % 2 ^ 64)
        | none ↦ update m key 1
      ]

  -- The probe runs once for each request.
  unfoldable pub run_probe : List Event → Map → Map
  run_probe [] m = m
  run_probe (ev ∷ es) m = run_probe es (bpf_prog1 ev m)
