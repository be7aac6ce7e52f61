-- ===== src/UnixSocket.antt =====
-- The two programs of network/unix_domain_socket: uds_server.c and uds_client.c as sequences of
-- system calls. The operating system's answers are an argument.
pub mod Release
use prog_playground.Prelude.{
  ℕ, zero, suc, Bool, true, false, Option, none, some, List, [], ◌∷◌, ◌++◌, take, if◌then◌else◌,
  codes,
}

pub data Call : Type 0 where
  unlink_path : Call
  socket_gave : ℕ → Call
  socket_failed bind_path listen_for_5 accept_failed : Call
  accept_gave : ℕ → Call
  connect_path : Call
  read_from : ℕ → Call
  write_to : ℕ → List ℕ → Call
  close_fd : ℕ → Call
  print_received : List ℕ → Call

pub record Run : Type 0 where
  pub status : ℕ
  pub calls : List Call

abbrev pub exit_success : ℕ
exit_success = 0

abbrev pub exit_failure : ℕ
exit_failure = 1

abbrev pub buf_size : ℕ
buf_size = 1024

abbrev pub msg : List ℕ
msg = codes "Hello from client!"

abbrev pub reply : List ℕ
reply = codes "Hello from server!"

-- `none` is the answer -1; a read gives the bytes that came, of which the buffer takes 1024.
pub record ServerAnswers : Type 0 where
  pub server_fd : Option ℕ
  pub bound : Bool
  pub listening : Bool
  pub client_fd : Option ℕ
  pub received : Option (List ℕ)
  pub replied : Bool

pub record ClientAnswers : Type 0 where
  pub sock_fd : Option ℕ
  pub connected : Bool
  pub sent : Bool
  pub received : Option (List ℕ)

abbrev failure : List Call → Run
failure calls = record { status = exit_failure; calls = calls }

-- Steps 7 to 9 of the server.
unfoldable pub serve : ServerAnswers → ℕ → ℕ → List Call → Run
serve a server client calls = elim a.received [
  | none ↦ failure (calls ++ (read_from client ∷ close_fd client ∷ close_fd server ∷ []))
  | some bytes ↦
      let answered =
        calls
        ++ (read_from client ∷ print_received (take buf_size bytes) ∷ write_to client reply ∷ []) in
      let closed = answered ++ (close_fd client ∷ close_fd server ∷ []) in
      if a.replied
      then record { status = exit_success; calls = closed ++ unlink_path ∷ [] }
      else failure closed
]

unfoldable pub server_main : ServerAnswers → Run
unfolding serve
server_main a = elim a.server_fd [
  | none ↦ failure (unlink_path ∷ socket_failed ∷ [])
  | some server ↦
      let binding = unlink_path ∷ socket_gave server ∷ bind_path ∷ [] in
      let hearing = binding ++ listen_for_5 ∷ [] in
      if a.bound
      then (if a.listening
          then elim a.client_fd [
            | none ↦ failure (hearing ++ (accept_failed ∷ close_fd server ∷ []))
            | some client ↦ serve a server client (hearing ++ accept_gave client ∷ [])
          ]
          else failure (hearing ++ close_fd server ∷ []))
      else failure (binding ++ close_fd server ∷ [])
]

unfoldable pub client_main : ClientAnswers → Run
client_main a = elim a.sock_fd [
  | none ↦ failure (socket_failed ∷ [])
  | some fd ↦
      let connecting = socket_gave fd ∷ connect_path ∷ [] in
      let writing = connecting ++ write_to fd msg ∷ [] in
      let reading = writing ++ read_from fd ∷ [] in
      if a.connected
      then (if a.sent
          then elim a.received [
            | none ↦ failure (reading ++ close_fd fd ∷ [])
            | some bytes ↦ record {
              status = exit_success;
              calls = reading ++ (print_received (take buf_size bytes) ∷ close_fd fd ∷ []);
            }
          ]
          else failure (writing ++ close_fd fd ∷ []))
      else failure (connecting ++ close_fd fd ∷ [])
]
