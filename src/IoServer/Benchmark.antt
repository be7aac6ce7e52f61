-- ===== src/IoServer/Benchmark.antt =====
-- `BenchmarkClient`, ioserver_demo/src/client/client.cpp.
use prog_playground.Prelude.{
  ℕ, zero, suc, ◌+◌, Bool, true, false, Option, none, some, List, [], ◌∷◌, ◌++◌, codes, decimal,
  if◌then◌else◌,
}
use prog_playground.IoServer.{
  Text, Received, got, would_block, recv_failed, peer_closed, Sent, send_loop,
}
use prog_playground.IoServer.Server.{text_equal}

pub data Call : Type 0 where
  socket_failed : Call
  socket_gave connect_to close_fd : ℕ → Call
  sent : Text → Call

-- The loop with `retry_count` attempts left; the answers of `connect`, and what was called.
unfoldable pub connect_loop : (fd retry_count : ℕ) → List Bool → List Call × Bool
connect_loop fd zero answers = ([], false)
connect_loop fd (suc n) [] = ([], false)
connect_loop fd (suc n) (true ∷ answers) = (connect_to fd ∷ [], true)
connect_loop fd (suc n) (false ∷ answers) =
    let (calls, connected) = connect_loop fd n answers in (connect_to fd ∷ calls, connected)

-- `none` is an error; an answer that would block ends the response, as the end of the stream does.
unfoldable pub read_response : List Received → (bytes : Text) → Option Text
read_response [] bytes = some bytes
read_response (got piece ∷ answers) bytes = read_response answers (bytes ++ piece)
read_response (would_block ∷ answers) bytes = some bytes
read_response (recv_failed ∷ answers) bytes = none
read_response (peer_closed ∷ answers) bytes = some bytes

abbrev pub sends : List Text → List Call
sends [] = []
sends (t ∷ ts) = sent t ∷ sends ts

-- What the system answers to one request.
pub record RequestAnswers : Type 0 where
  pub socket : Option ℕ
  pub connects : List Bool
  pub sends : List Sent
  pub received : List Received

-- The text of the batch with one item, and the status of a response; `none` is an exception.
pub record ClientJson : Type 0 where
  pub dump_item : (key value : Text) → Text
  pub status : Text → Option Text

module _ (json : ClientJson) where
  -- `test_key_<id>_0` and `test_value_<id>_0`; an `int` has at most 10 digits.
  unfoldable pub request_text : (req_id : ℕ) → Text
  request_text req_id =
      let suffix = decimal 10 req_id ++ codes "_0" in
      json.dump_item (codes "test_key_" ++ suffix) (codes "test_value_" ++ suffix)

  abbrev pub is_success : Option Text → Bool
  is_success none = false
  is_success (some status) = text_equal status (codes "success")

  unfoldable pub finish_request : (fd : ℕ) → Option Text → List Call × Bool
  finish_request fd none = (close_fd fd ∷ [], false)
  finish_request fd (some response) = (close_fd fd ∷ [], is_success (json.status response))

  -- After the sending; bytes that are left mean that `send` failed.
  unfoldable pub receive :
      (fd : ℕ) → List Received → (pieces : List Text) → (left : Text) → List Call × Bool
  unfolding finish_request read_response
  receive fd received pieces [] =
      let (calls, success) = finish_request fd (read_response received []) in
      (sends pieces ++ calls, success)
  receive fd received pieces (b ∷ bs) = (sends pieces ++ close_fd fd ∷ [], false)

  -- From the sending on.
  unfoldable pub exchange : (fd req_id : ℕ) → RequestAnswers → List Call × Bool
  unfolding receive request_text
  exchange fd req_id a =
      let (pieces, left) = send_loop a.sends (request_text req_id) in
      receive fd a.received pieces left

  unfoldable pub send_request : (req_id : ℕ) → RequestAnswers → List Call × Bool
  unfolding connect_loop exchange
  send_request req_id a = elim a.socket [
    | none ↦ (socket_failed ∷ [], false)
    | some fd ↦
        let (attempts, connected) = connect_loop fd 3 a.connects in
        let (rest, success) = exchange fd req_id a in
        if connected
        then (socket_gave fd ∷ (attempts ++ rest), success)
        else (socket_gave fd ∷ (attempts ++ close_fd fd ∷ []), false)
  ]

  pub record Counts : Type 0 where
    pub success_count : ℕ
    pub error_count : ℕ
    pub latencies : ℕ

  -- A thread's requests in order, counted with those of the other threads.
  unfoldable pub run_thread : (requests j : ℕ) → (ℕ → RequestAnswers) → Counts → Counts
  unfolding send_request
  run_thread zero j answers c = c
  run_thread (suc n) j answers c =
      let c' =
        if (send_request j (answers j)).1
        then record c { success_count = c.success_count + 1; latencies = c.latencies + 1 }
        else record c { error_count = c.error_count + 1 } in
      run_thread n (j + 1) answers c'
