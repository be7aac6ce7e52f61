-- ===== src/IoServer.antt =====
-- The server and the benchmark client of ioserver_demo: sockets, requests in JSON, a cache in Redis
-- and a table in MySQL. The JSON library, the two databases and the operating system are not code
-- of the repository: their answers are arguments.
pub mod Db
pub mod Request
pub mod Server
pub mod Benchmark
pub mod Stored
pub mod Closing
pub mod Balance
pub mod Counting
pub mod Sending
pub mod EndToEnd
pub mod Handled
pub mod Pieces
use prog_playground.Prelude.{
  ℕ, ◌+◌, Option, none, some, List, [], ◌∷◌, ◌++◌, drop, length, take, ◌==◌, if◌then◌else◌,
}

abbrev pub Text : Type 0
Text = List ℕ

-- The bytes that a call of a C library sees behind `c_str()`: those before the first NUL.
abbrev pub c_str : Text → Text
c_str [] = []
c_str (b ∷ bs) = let rest = c_str bs in if b == 0 then [] else b ∷ rest

-- An answer of `recv` on a socket that does not block.
pub data Received : Type 0 where
  got : Text → Received
  would_block recv_failed peer_closed : Received

-- An answer of `send`: a number of bytes taken, or an error.
pub data Sent : Type 0 where
  took : ℕ → Sent
  send_again send_failed : Sent

-- The loop of `send` with the bytes that are left: the pieces that were taken, and the bytes that
-- are left when the loop ends, by an error or because all are taken, or when the answers end.
unfoldable pub send_loop : List Sent → (left : Text) → List Text × Text
send_loop answers [] = ([], [])
send_loop [] (b ∷ bs) = ([], b ∷ bs)
send_loop (took n ∷ answers) (b ∷ bs) =
    let (pieces, left) = send_loop answers (drop n (b ∷ bs)) in (take n (b ∷ bs) ∷ pieces, left)
send_loop (send_again ∷ answers) (b ∷ bs) = send_loop answers (b ∷ bs)
send_loop (send_failed ∷ answers) (b ∷ bs) = ([], b ∷ bs)
