-- ===== src/Tcptrace/Kernel.antt =====
-- `handle_tp` of network/ebpf/libbpf_tcptrace/test_tcptrace.bpf.c. What the kernel holds is an
-- argument: the packet's memory from `skb->head` on, its header offsets and its socket.
use prog_playground.Prelude.{
  ℕ, ◌+◌, ◌*◌, ◌/◌, ◌%◌, ◌^◌, Option, none, some, List, if◌then◌else◌, ◌==◌,
}
use prog_playground.Tcptrace.{to_memory}

pub record Sock : Type 0 where
  pub family : ℕ
  pub state : ℕ

pub record SkBuff : Type 0 where
  pub head : ℕ → ℕ
  pub transport_header : ℕ
  pub network_header : ℕ
  pub sk : Option Sock

abbrev pub af_inet : ℕ
af_inet = 2

-- Loads of 16 and 32 bits on a little-endian machine, from a byte-addressed memory.
abbrev pub load16 : (ℕ → ℕ) → ℕ → ℕ
load16 mem p = mem p + 256 * mem (p + 1)

abbrev pub load32 : (ℕ → ℕ) → ℕ → ℕ
load32 mem p = mem p + 256 * mem (p + 1) + 65536 * mem (p + 2) + 16777216 * mem (p + 3)

-- The bytes that the tracepoint hands to `bpf_perf_event_output`, or `none` if it sends nothing.
unfoldable pub handle_tp : ℕ → SkBuff → Option (List ℕ)
handle_tp pid_tgid skb = elim skb.sk [
  | none ↦ none
  | some sk ↦
      let pid = pid_tgid / 2 ^ 32 % 2 ^ 32 in
      let tcp = skb.transport_header in
      let ip = skb.network_header in
      if sk.family % 2 ^ 16 == af_inet
      then some (
          to_memory (record {
            pid = pid;
            ip = 4;
            saddr = load32 skb.head (ip + 12);
            daddr = load32 skb.head (ip + 16);
            sport = load16 skb.head tcp;
            dport = load16 skb.head (tcp + 2);
            state = sk.state % 2 ^ 8;
            tcpflags = skb.head (tcp + 13);
            stack_id = 0;
          }))
      else none
]
