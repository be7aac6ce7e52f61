-- ===== src/UnixSocket/Release.antt =====
-- Every descriptor that a run gets is closed in that run.
use prog_playground.Prelude.{ℕ, suc, ◌+◌, ◌≡◌, ◌↔◌, arith, List, [], ◌∷◌, if◌then◌else◌, ◌==◌}
use prog_playground.UnixSocket.{
  Call, unlink_path, socket_gave, accept_gave, close_fd, ServerAnswers, ClientAnswers, server_main,
  client_main, exit_success,
}

-- How often a run is given the descriptor `fd`, and how often it closes it.
abbrev pub given : ℕ → List Call → ℕ
given fd [] = 0
given fd (socket_gave n ∷ cs) = (if n == fd then 1 else 0) + given fd cs
given fd (accept_gave n ∷ cs) = (if n == fd then 1 else 0) + given fd cs
given fd (c ∷ cs) = given fd cs

abbrev pub closed : ℕ → List Call → ℕ
closed fd [] = 0
closed fd (close_fd n ∷ cs) = (if n == fd then 1 else 0) + closed fd cs
closed fd (c ∷ cs) = closed fd cs

-- Whatever the system answers, the server closes each descriptor as often as it was given it.
pub server_main-closes :
    (a : ServerAnswers) (fd : ℕ) → closed fd (server_main a).calls ≡ given fd (server_main a).calls
unfolding server_main
server_main-closes a fd = ground arith

-- Whatever the system answers, the client closes each descriptor as often as it was given it.
pub client_main-closes :
    (a : ClientAnswers) (fd : ℕ) → closed fd (client_main a).calls ≡ given fd (client_main a).calls
unfolding client_main
client_main-closes a fd = ground arith

-- How often the path of the socket is unlinked.
abbrev pub unlinks : List Call → ℕ
unlinks [] = 0
unlinks (unlink_path ∷ cs) = suc (unlinks cs)
unlinks (c ∷ cs) = unlinks cs

-- The server unlinks the socket's path a second time, after its start, exactly if it ends with
-- success.
pub server_main-unlinks_iff :
    (a : ServerAnswers)
    → (unlinks (server_main a).calls ≡ 2) ↔ ((server_main a).status ≡ exit_success)
unfolding server_main
server_main-unlinks_iff a = ground arith
