-- ===== src/Tests/Servers.antt =====
-- Inputs for the packet servers and for the server and the client of ioserver_demo.
use prog_playground.Prelude.{
  ℕ, ◌≡◌, refl, arith, Bool, true, false, none, some, List, [], ◌∷◌, ◌++◌, ◌==◌, if◌then◌else◌,
  length, codes,
}
use prog_playground.PacketServer.{packed, Pieces, Socket, calculate_checksum}
use prog_playground.PacketServer.Serve.{serve_client, turn, printed}
use prog_playground.PacketServer.Release
use prog_playground.PacketServer.Format.{
  Packet, IsInWidth, layout_of, body_of, header_of, report_of, all_calls,
}
use prog_playground.PacketServer.Delivery.{serve_client-packet}
use prog_playground.Multiplex.{read_type}
use prog_playground.IoServer.{
  Received, got, would_block, peer_closed, Sent, took, send_again, send_loop,
}
use prog_playground.IoServer.Db
use prog_playground.IoServer.Db.{DbManager, good_context}
use prog_playground.IoServer.Request.{Backend, JsonLibrary, text, missing}
use prog_playground.IoServer.Server.{
  Flags, InitAnswers, Server, accept_one, Waited, events, escaping, init, cleanup, event_loop,
}
use prog_playground.IoServer.Benchmark.{RequestAnswers, ClientJson}
use prog_playground.IoServer.Sending.{joined, Takes, send_loop-joined}
use prog_playground.IoServer.Balance.{
  mysql_taken, mysql_given, redis_taken, redis_given, cleanup-init,
}

abbrev packet : Packet
packet = record { version = 258; command = 7; seq_num = 70000; timestamp = 9; text = λ i. i }

-- One byte at a time.
abbrev slow : Pieces
slow k = some 0

packet-IsInWidth : IsInWidth packet
packet-IsInWidth = record {
  version = omega arith;
  command = omega arith;
  seq_num = omega arith;
  timestamp = omega arith;
}

serve_client-packet_example :
    serve_client (layout_of true) slow (record {
      calls = 3;
      pending =
          header_of true packet (calculate_checksum (body_of true packet))
          ++ (body_of true packet ++ 5 ∷ []);
    })
    ≡ turn (printed (report_of true packet (calculate_checksum (body_of true packet)))) all_calls
serve_client-packet_example =
    serve_client-packet true packet slow 3 (5 ∷ []) packet-IsInWidth (λ k e. absurd (cc))

-- The header says that 2 bytes follow, and that they add up to 3.
abbrev short_packet : Socket
short_packet = record {
  calls = 0;
  pending = b'A' ∷ b'B' ∷ 0 ∷ 0 ∷ 0 ∷ 0 ∷ 0 ∷ 0 ∷ 0 ∷ 2 ∷ 0 ∷ 0 ∷ 0 ∷ 3 ∷ 1 ∷ 2 ∷ [];
}

serve_client-IsReleased_example : Release.IsReleased (serve_client packed slow short_packet)
serve_client-IsReleased_example = Release.serve_client-IsReleased packed slow short_packet

-- A library that reads a number as an object whose members are the texts with that one code.
abbrev numbers : JsonLibrary
numbers = record {
  Json = ℕ;
  parse = λ t. some (length t);
  parse_error = λ t. t;
  is_array = λ j. false;
  items = λ j. [];
  string_at = λ j name. if j == 0 then missing else text (j ∷ []);
  entry_at = λ j name. if j == 0 then none else some (j ∷ []);
  entry_error = λ j name. name;
  dump = λ status message. if length message == 2 then none else some (status ++ message);
  dump_error = λ status message. message;
}

-- The table refuses the item 2.
abbrev answering : Backend
answering = record {
  redis_reply = λ i. some Db.other_reply;
  mysql_status = λ i. if i == 2 then 1 else 0;
}

abbrev connected : DbManager
connected = record {
  mysql = true;
  redis = true;
  mysql_host = [];
  mysql_user = [];
  mysql_password = [];
  mysql_database = [];
  mysql_port = 3306;
  redis_host = [];
  redis_port = 6379;
  calls = [];
}

abbrev batch : List ℕ
batch = 65 ∷ 66 ∷ 67 ∷ 68 ∷ []

abbrev a_request : List Received
a_request = got (codes "{}") ∷ would_block ∷ []

abbrev takes_slowly : List Sent
takes_slowly = took 4 ∷ send_again ∷ took 100 ∷ []

send_loop-joined_example :
    (joined (send_loop takes_slowly (codes "response")).0
        ++ (send_loop takes_slowly (codes "response")).1
      ≡ codes "response")
    × (Takes takes_slowly (length (codes "response"))
        → (send_loop takes_slowly (codes "response")).1 ≡ [])
send_loop-joined_example = send_loop-joined takes_slowly (codes "response")

abbrev started : InitAnswers
started = record {
  config = record {
    opened_and_parsed = true;
    port = some 8080;
    num_threads = some 4;
    logging = true;
    mysql = some (record { host = []; user = []; password = []; database = [] });
    redis = some ([], 6379);
  };
  socket = some 3;
  option_set = true;
  bound = true;
  listening = true;
  flags = some 2;
  flags_set = true;
  mysql_initialised = true;
  mysql_connected = true;
  redis = good_context;
}

abbrev fresh : Server
fresh = record {
  port = 0;
  threads = 1;
  db = record connected { mysql = false; redis = false };
  serverfd = none;
  has_io = false;
}

abbrev running : Flags
running = record { running = true; reload_config = false }

cleanup-init_example :
    (mysql_taken (cleanup (init started fresh).0 running).0.db.calls
      ≡ mysql_given (cleanup (init started fresh).0 running).0.db.calls)
    × (redis_taken (cleanup (init started fresh).0 running).0.db.calls
        ≡ redis_given (cleanup (init started fresh).0 running).0.db.calls)
cleanup-init_example =
    cleanup-init started fresh running
      (record { mysql = refl; redis = refl; balanced = record { mysql = refl; redis = refl } })

abbrev client_json : ClientJson
client_json = record { dump_item = λ key value. key ++ value; status = λ t. some t }

-- The second attempt to connect succeeds.
abbrev answers : RequestAnswers
answers = record {
  socket = some 5;
  connects = false ∷ true ∷ [];
  sends = took 100 ∷ [];
  received = got (codes "success") ∷ peer_closed ∷ [];
}

-- The pool is stopped when the second event comes.
abbrev turns : List (Bool × Waited)
turns =
    (
      true,
      events (
          (record { fd = 3; type = read_type }, true)
          ∷ (record { fd = 8; type = read_type }, false)
          ∷ []),
    )
    ∷ []

turns_escape : event_loop 3 turns ≡ (accept_one ∷ [], escaping)
unfolding event_loop
turns_escape = refl
