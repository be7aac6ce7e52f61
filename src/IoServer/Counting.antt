-- ===== src/IoServer/Counting.antt =====
-- Counts: the sockets and attempts of the benchmark client, and its results.
use prog_playground.Prelude.{
  ℕ, zero, suc, ◌+◌, ◌≤◌, ◌≡◌, arith, Bool, true, false, Option, none, some, List, [], ◌∷◌, ◌++◌,
  Bool-cases, Option-cases, inl, inr,
}
use prog_playground.IoServer.{Text, Received, send_loop}
use prog_playground.IoServer.Benchmark.{
  Call, socket_failed, socket_gave, connect_to, close_fd, sent, connect_loop, read_response, sends,
  RequestAnswers, ClientJson, finish_request, request_text, receive, exchange, send_request, Counts,
  run_thread,
}

abbrev pub given : List Call → ℕ
given [] = 0
given (socket_gave fd ∷ cs) = suc (given cs)
given (c ∷ cs) = given cs

abbrev pub closed : List Call → ℕ
closed [] = 0
closed (close_fd fd ∷ cs) = suc (closed cs)
closed (c ∷ cs) = closed cs

abbrev pub attempts : List Call → ℕ
attempts [] = 0
attempts (connect_to fd ∷ cs) = suc (attempts cs)
attempts (c ∷ cs) = attempts cs

-- The three counts of calls that follow each other.
record Adds (xs ys : List Call) : Type 0 where
  given : given (xs ++ ys) ≡ given xs + given ys
  closed : closed (xs ++ ys) ≡ closed xs + closed ys
  attempts : attempts (xs ++ ys) ≡ attempts xs + attempts ys

append-Adds : (xs ys : List Call) → Adds xs ys
append-Adds [] ys = grind arith
append-Adds (socket_failed ∷ xs) ys = grind (arith, append-Adds xs ys)
append-Adds (socket_gave fd ∷ xs) ys = grind (arith, append-Adds xs ys)
append-Adds (connect_to fd ∷ xs) ys = grind (arith, append-Adds xs ys)
append-Adds (close_fd fd ∷ xs) ys = grind (arith, append-Adds xs ys)
append-Adds (sent t ∷ xs) ys = grind (arith, append-Adds xs ys)

-- What each part of a request counts.
record Tally (cs : List Call) (g c t : ℕ) : Type 0 where
  given : given cs ≡ g
  closed : closed cs ≡ c
  attempts : attempts cs ≤ t

sends-Tally : (ts : List Text) → Tally (sends ts) 0 0 0
sends-Tally [] = grind arith
sends-Tally (t ∷ ts) = grind (arith, sends-Tally ts)

connect_loop-Tally : (fd n : ℕ) (answers : List Bool) → Tally (connect_loop fd n answers).0 0 0 n
unfolding connect_loop
connect_loop-Tally fd zero answers = grind arith
connect_loop-Tally fd (suc n) [] = grind arith
connect_loop-Tally fd (suc n) (true ∷ answers) = grind arith
connect_loop-Tally fd (suc n) (false ∷ answers) = grind (arith, connect_loop-Tally fd n answers)

append-Tally :
    (xs ys : List Call) (g c t g' c' t' : ℕ)
    → Tally xs g c t
    → Tally ys g' c' t'
    → Tally (xs ++ ys) (g + g') (c + c') (t + t')
append-Tally xs ys g c t g' c' t' h k = grind (arith, append-Adds xs ys, h, k)

close-Tally : (fd : ℕ) → Tally (close_fd fd ∷ []) 0 1 0
close-Tally fd = grind arith

no_socket : Tally (socket_failed ∷ []) 0 0 3
no_socket = grind arith

gave-Tally : (fd : ℕ) (cs : List Call) → Tally cs 0 1 3 → Tally (socket_gave fd ∷ cs) 1 1 3
gave-Tally fd cs h = grind (arith, h)

module _ (json : ClientJson) where
  finish_request-Tally : (fd : ℕ) (r : Option Text) → Tally (finish_request json fd r).0 0 1 0
  unfolding finish_request
  finish_request-Tally fd none = close-Tally fd
  finish_request-Tally fd (some response) = close-Tally fd

  receive-Tally :
      (fd : ℕ) (received : List Received) (pieces : List Text) (left : Text)
      → Tally (receive json fd received pieces left).0 0 1 0
  unfolding receive
  receive-Tally fd received pieces [] =
      append-Tally (sends pieces) (finish_request json fd (read_response received [])).0 0 0 0 0 1 0
        (sends-Tally pieces) (finish_request-Tally fd (read_response received []))
  receive-Tally fd received pieces (b ∷ bs) =
      append-Tally (sends pieces) (close_fd fd ∷ []) 0 0 0 0 1 0 (sends-Tally pieces)
        (close-Tally fd)

  exchange-Tally : (fd req_id : ℕ) (a : RequestAnswers) → Tally (exchange json fd req_id a).0 0 1 0
  unfolding exchange
  exchange-Tally fd req_id a =
      receive-Tally fd a.received (send_loop a.sends (request_text json req_id)).0
        (send_loop a.sends (request_text json req_id)).1

  send_request-Tally :
      (req_id : ℕ) (a : RequestAnswers) → (g : ℕ) × Tally (send_request json req_id a).0 g g 3
  unfolding send_request
  send_request-Tally req_id a = elim (Option-cases a.socket) [
    | inl refused ↦ rw (refused, send_request) (0, no_socket)
    | inr (fd, gave) ↦ elim (Bool-cases (connect_loop fd 3 a.connects).1) [
      | inl connected ↦
          rw (gave, connected, send_request)
            (
              1,
              gave-Tally fd _ (
                  append-Tally (connect_loop fd 3 a.connects).0 (exchange json fd req_id a).0 0 0 3
                    0 1 0 (connect_loop-Tally fd 3 a.connects) (exchange-Tally fd req_id a)),
            )
      | inr alone ↦
          rw (gave, alone, send_request)
            (
              1,
              gave-Tally fd _ (
                  append-Tally (connect_loop fd 3 a.connects).0 (close_fd fd ∷ []) 0 0 3 0 1 0
                    (connect_loop-Tally fd 3 a.connects) (close-Tally fd)),
            )
    ]
  ]

  -- Whatever the system answers, a request of the benchmark client closes its socket as often as
  -- it was given one, and tries to connect at most three times.
  pub send_request-counts :
      (req_id : ℕ) (a : RequestAnswers)
      → (closed (send_request json req_id a).0 ≡ given (send_request json req_id a).0)
        × (attempts (send_request json req_id a).0 ≤ 3)
  send_request-counts req_id a =
      let (g, t) = send_request-Tally req_id a in (omega (arith, t.given, t.closed), t.attempts)

  -- A thread counts each of its requests once, and a latency for each success.
  pub run_thread-counts :
      (requests j : ℕ) (answers : ℕ → RequestAnswers) (c : Counts json)
      → let r = run_thread json requests j answers c in
        (r.success_count + r.error_count ≡ c.success_count + c.error_count + requests)
        × (r.latencies + c.success_count ≡ c.latencies + r.success_count)
  unfolding run_thread
  run_thread-counts zero j answers c = (omega arith, omega arith)
  run_thread-counts (suc n) j answers c = elim (Bool-cases (send_request json j (answers j)).1) [
    | inl success ↦
        let (sum, kept) =
          run_thread-counts n (j + 1) answers
            (record c { success_count = c.success_count + 1; latencies = c.latencies + 1 }) in
        rw (success, run_thread) (omega (arith, sum), omega (arith, kept))
    | inr error ↦
        let (sum, kept) =
          run_thread-counts n (j + 1) answers (record c { error_count = c.error_count + 1 }) in
        rw (error, run_thread) (omega (arith, sum), omega (arith, kept))
  ]
