-- ===== src/Tcptrace/Delivery.antt =====
-- A packet's way from `handle_tp` in the kernel to the line that `handle_event` prints.
use prog_playground.Prelude.{
  ℕ, ◌+◌, ◌/◌, ◌%◌, ◌^◌, ◌≤◌, ◌<◌, ◌≡◌, ◌≢◌, ◌↔◌, ◌⊎◌, refl, arith, true, Option, none, some, List,
  ◌++◌, lt→ltb, le→not_ltb, length,
}
use prog_playground.Tcptrace.{Ipv4Data, IsInWidth, to_memory, size_of_data}
use prog_playground.Tcptrace.Kernel.{SkBuff, Sock, af_inet, load16, load32, handle_tp}
use prog_playground.Tcptrace.Flags.{flags2str}
use prog_playground.Tcptrace.Printing.{tcp_states, Report, printed, handle_event, endpoint}
use prog_playground.Tcptrace.Laws.{
  is_named, flags2str_fits, of_memory-to_memory, named_state, written, endpoint-written,
}

-- The tracepoint stays silent exactly if the packet has no socket or is not IPv4.
pub handle_tp-none_iff :
    (pid_tgid : ℕ) (skb : SkBuff)
    → (handle_tp pid_tgid skb ≡ none)
      ↔ ((skb.sk ≡ none) ⊎ ((sk : Sock) × (skb.sk ≡ some sk) × (sk.family % 2 ^ 16 ≢ af_inet)))
unfolding handle_tp
handle_tp-none_iff pid_tgid skb = ground arith

name_of :
    (o : Option (Option (List ℕ))) → is_named o ≡ true → (name : List ℕ) × (o ≡ some (some name))
name_of none h = absurd (cc)
name_of (some none) h = absurd (cc)
name_of (some (some name)) h = (name, refl)

-- The struct that the tracepoint fills.
abbrev sent : ℕ → SkBuff → Sock → Ipv4Data
sent pid_tgid skb sk = record {
  pid = pid_tgid / 2 ^ 32 % 2 ^ 32;
  ip = 4;
  saddr = load32 skb.head (skb.network_header + 12);
  daddr = load32 skb.head (skb.network_header + 16);
  sport = load16 skb.head skb.transport_header;
  dport = load16 skb.head (skb.transport_header + 2);
  state = sk.state % 2 ^ 8;
  tcpflags = skb.head (skb.transport_header + 13);
  stack_id = 0;
}

abbrev report_of : Ipv4Data → List ℕ → Report
report_of e name = record {
  pid = e.pid;
  ip = e.ip;
  source = endpoint e.saddr e.sport;
  destination = endpoint e.daddr e.dport;
  state = name;
  flags = flags2str e.tcpflags;
}

handle_event_of_memory :
    (e : Ipv4Data) (name rest : List ℕ) (data_sz : ℕ)
    → IsInWidth e
    → size_of_data ≤ data_sz
    → tcp_states e.state ≡ some (some name)
    → handle_event (to_memory e ++ rest) data_sz ≡ printed (report_of e name)
unfolding handle_event
handle_event_of_memory e name rest data_sz w enough named = rw (
  handle_event,
  le→not_ltb data_sz size_of_data enough,
  of_memory-to_memory e rest w,
  lt→ltb (length (flags2str e.tcpflags)) 32 (flags2str_fits e.tcpflags w.tcpflags),
  named,
  of_memory-to_memory e rest w,
)

module _ (pid_tgid : ℕ) (skb : SkBuff) (sk : Sock) (bytes : (p : ℕ) → skb.head p < 256) where
  sent-IsInWidth : IsInWidth (sent pid_tgid skb sk)
  sent-IsInWidth =
      let n = skb.network_header in
      let t = skb.transport_header in
      record {
        pid = omega arith;
        ip = omega arith;
        saddr =
            omega
              (arith, bytes (n + 12), bytes (n + 12 + 1), bytes (n + 12 + 2), bytes (n + 12 + 3));
        daddr =
            omega
              (arith, bytes (n + 16), bytes (n + 16 + 1), bytes (n + 16 + 2), bytes (n + 16 + 3));
        sport = omega (arith, bytes t, bytes (t + 1));
        dport = omega (arith, bytes (t + 2), bytes (t + 2 + 1));
        state = omega arith;
        tcpflags = bytes (t + 13);
        stack_id = omega arith;
      }

  tp_sends :
      skb.sk ≡ some sk
      → sk.family ≡ af_inet
      → handle_tp pid_tgid skb ≡ some (to_memory (sent pid_tgid skb sk))
  unfolding handle_tp
  tp_sends has_sk inet = rw (has_sk, handle_tp, inet)

  -- A dropped IPv4 packet of a socket in one of the states 1 to 13 is sent by handle_tp, and
  -- handle_event, told a size of at least that of the struct and whatever follows the struct in
  -- the buffer, prints it: the process, the addresses and ports as they stand in the headers in
  -- network order, the socket's state and the text of the flags byte.
  pub packet_reported :
      (data_sz : ℕ) (rest : List ℕ)
      → skb.sk ≡ some sk
      → sk.family ≡ af_inet
      → 0 < sk.state
      → sk.state < 14
      → size_of_data ≤ data_sz
      → (sent_bytes : List ℕ) × (r : Report) × (handle_tp pid_tgid skb ≡ some sent_bytes)
        × (handle_event (sent_bytes ++ rest) data_sz ≡ printed r)
        × (r.pid ≡ pid_tgid / 2 ^ 32 % 2 ^ 32)
        × (r.source ≡ written skb.head (skb.network_header + 12) skb.transport_header)
        × (r.destination ≡ written skb.head (skb.network_header + 16) (skb.transport_header + 2))
        × (tcp_states sk.state ≡ some (some r.state))
        × (r.flags ≡ flags2str (skb.head (skb.transport_header + 13)))
  packet_reported data_sz rest has_sk inet given low enough =
      let e = sent pid_tgid skb sk in
      let kept : sk.state % 2 ^ 8 ≡ sk.state = omega arith in
      let (name, named) = name_of (tcp_states sk.state) (named_state sk.state given low) in
      (
        to_memory e,
        report_of e name,
        tp_sends has_sk inet,
        handle_event_of_memory e name rest data_sz sent-IsInWidth enough (rw kept named),
        refl,
        endpoint-written skb.head (skb.network_header + 12) skb.transport_header bytes,
        endpoint-written skb.head (skb.network_header + 16) (skb.transport_header + 2) bytes,
        named,
        refl,
      )
