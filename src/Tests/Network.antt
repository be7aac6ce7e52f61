-- ===== src/Tests/Network.antt =====
-- Inputs for the packet tracer.
use prog_playground.Prelude.{
  ℕ, ◌+◌, ◌*◌, ◌%◌, ◌^◌, ◌<◌, ◌≡◌, refl, arith, true, some, List, [], ◌∷◌, ◌++◌, codes, pos,
  decimal,
}
use prog_playground.Tcptrace.{Ipv4Data, IsInWidth}
use prog_playground.Tcptrace.Kernel.{SkBuff, Sock, af_inet, handle_tp}
use prog_playground.Tcptrace.Flags.{flags2str}
use prog_playground.Tcptrace.Printing.{Report, printed, tcp_states, handle_event}
use prog_playground.Tcptrace.Laws.{read_flags, read_flags-flags2str, written}
use prog_playground.Tcptrace.Delivery.{packet_reported}
use prog_playground.Tcptrace.Session.{Answers, events, interrupted, failed, main}
use prog_playground.Tcptrace.Release.{EndsReleased, main-EndsReleased}

syn_ack : flags2str 0x12 ≡ codes "SYN|ACK"
unfolding flags2str
syn_ack = refl

read_flags-flags2str_example : read_flags [] (flags2str 0x12) ≡ 0x12
read_flags-flags2str_example = read_flags-flags2str 0x12 (omega arith)

abbrev sample : Ipv4Data
sample = record {
  pid = 4242;
  ip = 4;
  saddr = 0x0100007f;
  daddr = 0x0200007f;
  sport = 0x5000;
  dport = 0xbb01;
  state = 1;
  tcpflags = 0x12;
  stack_id = 0;
}

sample-IsInWidth : IsInWidth sample
sample-IsInWidth = omega arith

-- A memory whose bytes repeat, and a packet in it.
abbrev pattern_memory : ℕ → ℕ
pattern_memory p = p % 256

pattern_bytes : (p : ℕ) → pattern_memory p < 256
pattern_bytes p = omega arith

abbrev established : Sock
established = record { family = af_inet; state = 1 }

abbrev packet : SkBuff
packet = record {
  head = pattern_memory;
  transport_header = 40;
  network_header = 20;
  sk = some established;
}

packet_reported_example :
    (sent_bytes : List ℕ) × (r : Report) × (handle_tp (77 * 2 ^ 32 + 78) packet ≡ some sent_bytes)
    × (handle_event (sent_bytes ++ (1 ∷ [])) 44 ≡ printed r)
    × (r.pid ≡ 77)
    × (r.source ≡ written pattern_memory 32 40)
    × (r.destination ≡ written pattern_memory 36 42)
    × (tcp_states 1 ≡ some (some r.state))
    × (r.flags ≡ flags2str 53)
packet_reported_example =
    packet_reported (77 * 2 ^ 32 + 78) packet established pattern_bytes 44 (1 ∷ []) refl refl
      (omega arith) (omega arith) (omega arith)

written_source : written pattern_memory 32 40 ≡ codes "32.33.34.35:10281"
unfolding decimal
written_source = refl

abbrev healthy : Answers
healthy = record {
  opened = true;
  load_err = pos 0;
  attach_err = pos 0;
  buffer_made = true;
  buffer_errno = 12;
}

main-EndsReleased_example : EndsReleased (main healthy (events 3 ∷ interrupted ∷ failed 8 ∷ []))
main-EndsReleased_example =
    main-EndsReleased healthy (events 3 ∷ interrupted ∷ failed 8 ∷ []) refl (omega arith)
