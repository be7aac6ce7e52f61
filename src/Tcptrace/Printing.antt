-- ===== src/Tcptrace/Printing.antt =====
-- `handle_event` of network/ebpf/libbpf_tcptrace/test_tcptrace.c.
use prog_playground.Prelude.{
  ℕ, zero, suc, ◌+◌, ◌*◌, ◌/◌, ◌%◌, Option, none, some, List, [], ◌∷◌, ◌++◌, length, take, ltb,
  if◌then◌else◌, codes, decimal, le_bytes,
}
use prog_playground.Tcptrace.{size_of_data, of_memory}
use prog_playground.Tcptrace.Flags.{flags2str}

-- `tcp_states[state]`: the inner `none` is the null pointer that the initialiser leaves at 0, the
-- outer one an index past the array.
unfoldable pub tcp_states : ℕ → Option (Option (List ℕ))
tcp_states zero = some none
tcp_states (suc zero) = some (some (codes "ESTABLISHED"))
tcp_states (suc (suc zero)) = some (some (codes "SYN_SENT"))
tcp_states (suc (suc (suc zero))) = some (some (codes "SYN_RECV"))
tcp_states (suc (suc (suc (suc zero)))) = some (some (codes "FIN_WAIT1"))
tcp_states (suc (suc (suc (suc (suc zero))))) = some (some (codes "FIN_WAIT2"))
tcp_states (suc (suc (suc (suc (suc (suc zero)))))) = some (some (codes "TIME_WAIT"))
tcp_states (suc (suc (suc (suc (suc (suc (suc zero))))))) = some (some (codes "CLOSE"))
tcp_states (suc (suc (suc (suc (suc (suc (suc (suc zero)))))))) = some (some (codes "CLOSE_WAIT"))
tcp_states (suc (suc (suc (suc (suc (suc (suc (suc (suc rest))))))))) = later rest
  where
    later : ℕ → Option (Option (List ℕ))
    later zero = some (some (codes "LAST_ACK"))
    later (suc zero) = some (some (codes "LISTEN"))
    later (suc (suc zero)) = some (some (codes "CLOSING"))
    later (suc (suc (suc zero))) = some (some (codes "NEW_SYN_RECV"))
    later (suc (suc (suc (suc zero)))) = some (some (codes "UNKNOWN"))
    later (suc (suc (suc (suc (suc n))))) = none

-- `inet_ntop(AF_INET, …)` on the four bytes of an address as they lie in memory.
abbrev pub dotted : List ℕ → List ℕ
dotted [] = []
dotted (b ∷ []) = decimal 3 b
dotted (b ∷ c ∷ bs) = decimal 3 b ++ (b'.' ∷ dotted (c ∷ bs))

abbrev pub ntohs : ℕ → ℕ
ntohs x = x % 256 * 256 + x / 256

-- `snprintf(buff, 64, "%s:%d", …)` keeps at most 63 characters.
abbrev pub endpoint : ℕ → ℕ → List ℕ
endpoint addr port = take 63 (dotted (le_bytes 4 addr) ++ (b':' ∷ decimal 5 (ntohs port)))

pub record Report : Type 0 where
  pub pid : ℕ
  pub ip : ℕ
  pub source : List ℕ
  pub destination : List ℕ
  pub state : List ℕ
  pub flags : List ℕ

pub data Outcome : Type 0 where
  too_small undefined : Outcome
  printed : Report → Outcome

-- `tcp_flag_buff` has 32 bytes; a longer text with its NUL would overrun it. A null pointer for
-- `%s` is undefined.
unfoldable pub handle_event : List ℕ → ℕ → Outcome
handle_event bytes data_sz =
    if ltb data_sz size_of_data
    then too_small
    else (let e = of_memory bytes in
        if ltb (length (flags2str e.tcpflags)) 32
        then elim (tcp_states e.state) [
          | none ↦ undefined
          | some none ↦ undefined
          | some (some name) ↦ printed (record {
            pid = e.pid;
            ip = e.ip;
            source = endpoint e.saddr e.sport;
            destination = endpoint e.daddr e.dport;
            state = name;
            flags = flags2str e.tcpflags;
          })
        ]
        else undefined)
