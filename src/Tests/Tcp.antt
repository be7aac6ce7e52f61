-- ===== src/Tests/Tcp.antt =====
-- Inputs for the TCP samples.
use prog_playground.Prelude.{ℕ, ◌+◌, ◌==◌, ◌≡◌, refl, Bool, ltb, true, none, some, [], ◌∷◌, pos}
use prog_playground.TcpSamples.{
  RequestAnswers, StartAnswers, terminated, client_main, run_threads, timewait_main, noread_main,
  keep_main,
}
use prog_playground.TcpSamples.Closing.{EndedClosed, RunCloses, NeverCloses, descriptors_closed}

-- Two threads, the second of which cannot connect.
abbrev tcp_clients : ℕ → ℕ → RequestAnswers
tcp_clients i j = record {
  socket = some (i + 3);
  address_valid = true;
  connected = i == 0;
  sent = true;
}

abbrev tcp_start : StartAnswers
tcp_start = record { socket = pos 3; option_set = true; bound = true; listening = true }

-- The third thread cannot be created.
abbrev two_at_most : ℕ → Bool
two_at_most i = ltb i 2

descriptors_closed_example :
    EndedClosed 4 (some (pos 2)) two_at_most (client_main 3 (some (pos 2)) two_at_most tcp_clients)
    × RunCloses 4 tcp_start (timewait_main tcp_start (some 4 ∷ none ∷ some 4 ∷ []))
    × RunCloses 4 tcp_start (noread_main tcp_start (some 4 ∷ none ∷ some 4 ∷ []))
    × NeverCloses 4 (keep_main tcp_start (some (4, some 9 ∷ some 0 ∷ []) ∷ []))
descriptors_closed_example =
    descriptors_closed 4 (some (pos 2)) two_at_most tcp_clients tcp_start
      (some 4 ∷ none ∷ some 4 ∷ []) (some (4, some 9 ∷ some 0 ∷ []) ∷ [])

third_thread : client_main 3 (some (pos 3)) two_at_most tcp_clients ≡ terminated 2
unfolding client_main run_threads
third_thread = refl
