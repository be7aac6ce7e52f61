-- ===== src/Tcptrace.antt =====
-- The event of network/ebpf/libbpf_tcptrace/test_tcptrace.h as the kernel side sends it and as the
-- user side reads it: `struct ipv4_data_t` in memory.
pub mod Kernel
pub mod Flags
pub mod Printing
pub mod Laws
pub mod Delivery
pub mod Session
pub mod Release
use prog_playground.Prelude.{
  ℕ, ◌<◌, ◌^◌, ◌≡◌, refl, arith, List, [], ◌∷◌, ◌++◌, le_bytes, of_le_bytes, of_le_bytes-le_bytes,
  take, drop, length,
}

pub record Ipv4Data : Type 0 where
  pub pid : ℕ
  pub ip : ℕ
  pub saddr : ℕ
  pub daddr : ℕ
  pub sport : ℕ
  pub dport : ℕ
  pub state : ℕ
  pub tcpflags : ℕ
  pub stack_id : ℕ

-- The fields keep to their widths.
pub record IsInWidth (e : Ipv4Data) : Type 0 where
  pub pid : e.pid < 2 ^ 32
  pub ip : e.ip < 2 ^ 64
  pub saddr : e.saddr < 2 ^ 32
  pub daddr : e.daddr < 2 ^ 32
  pub sport : e.sport < 2 ^ 16
  pub dport : e.dport < 2 ^ 16
  pub state : e.state < 2 ^ 8
  pub tcpflags : e.tcpflags < 2 ^ 8
  pub stack_id : e.stack_id < 2 ^ 32

-- `sizeof(struct ipv4_data_t)` where `__u64` is aligned to 8.
abbrev pub size_of_data : ℕ
size_of_data = 40

abbrev pub padding : List ℕ
padding = 0 ∷ 0 ∷ 0 ∷ 0 ∷ []

-- The struct in memory; `= {}` clears the padding.
unfoldable pub to_memory : Ipv4Data → List ℕ
to_memory e =
    le_bytes 4 e.pid
    ++ (padding
        ++ (le_bytes 8 e.ip
            ++ (le_bytes 4 e.saddr
                ++ (le_bytes 4 e.daddr
                    ++ (le_bytes 2 e.sport
                        ++ (le_bytes 2 e.dport
                            ++ (le_bytes 1 e.state
                                ++ (le_bytes 1 e.tcpflags
                                    ++ (0 ∷ 0 ∷ [] ++ (le_bytes 4 e.stack_id ++ padding))))))))))

abbrev pub field_at : ℕ → ℕ → List ℕ → ℕ
field_at offset size bs = of_le_bytes (take size (drop offset bs))

-- `memcpy(&e, data, sizeof(e))`
unfoldable pub of_memory : List ℕ → Ipv4Data
of_memory bs = record {
  pid = field_at 0 4 bs;
  ip = field_at 8 8 bs;
  saddr = field_at 16 4 bs;
  daddr = field_at 20 4 bs;
  sport = field_at 24 2 bs;
  dport = field_at 26 2 bs;
  state = field_at 28 1 bs;
  tcpflags = field_at 29 1 bs;
  stack_id = field_at 32 4 bs;
}
