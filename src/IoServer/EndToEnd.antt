-- ===== src/IoServer/EndToEnd.antt =====
-- A request of the benchmark client, through the handler, to the result that the client counts.
use prog_playground.Prelude.{
  ℕ, ◌≡◌, ◌∙◌, ap, refl, true, false, arith, ◌==◌, Bool, not, ◌&&◌, Bool-cases, inl, inr, some,
  List, [], ◌∷◌, ◌++◌, map, length, decimal, codes, if◌then◌else◌,
}
use prog_playground.IoServer.{Text, Received, got, would_block, peer_closed, Sent, send_loop, c_str}
use prog_playground.IoServer.Db.{DbManager, set_cache}
use prog_playground.IoServer.Request.{insert_sql, Backend, JsonLibrary, handle_client}
use prog_playground.IoServer.Benchmark.{
  ClientJson, RequestAnswers, connect_loop, request_text, read_response, exchange, receive,
  finish_request, send_request, is_success,
}
use prog_playground.IosnoopUser.Printed.{AllDigits, decimal-AllDigits}
use prog_playground.IoServer.Stored.{cache_of, table_of}
use prog_playground.IoServer.Sending.{joined, Takes, send_loop-joined}
use prog_playground.IoServer.Pieces.{sent_pieces, read_response-got, all_sent}
use prog_playground.IoServer.Handled.{
  Agrees, IsWhole, is_stored, answer, handle_client-Leaves, answer_read,
}

abbrev pub suffix_of : (req_id : ℕ) → Text
suffix_of req_id = decimal 10 req_id ++ codes "_0"

abbrev pub key_of : (req_id : ℕ) → Text
key_of req_id = codes "test_key_" ++ suffix_of req_id

abbrev pub value_of : (req_id : ℕ) → Text
value_of req_id = codes "test_value_" ++ suffix_of req_id

-- No byte of a text is 0.
abbrev LacksNul : Text → Type 0
LacksNul [] = Unit
LacksNul (b ∷ bs) = ((b == 0) ≡ false) × LacksNul bs

abbrev lacks_nul : Text → Bool
lacks_nul [] = true
lacks_nul (b ∷ bs) = not (b == 0) && lacks_nul bs

lacks_nul→LacksNul : (t : Text) → lacks_nul t ≡ true → LacksNul t
lacks_nul→LacksNul [] h = tt
lacks_nul→LacksNul (b ∷ bs) h = elim (Bool-cases (b == 0)) [
  | inl nul ↦ absurd (ground (arith, nul, h))
  | inr other ↦ (other, lacks_nul→LacksNul bs (ground (arith, other, h)))
]

append-LacksNul : (xs ys : Text) → LacksNul xs → LacksNul ys → LacksNul (xs ++ ys)
append-LacksNul [] ys h k = k
append-LacksNul (x ∷ xs) ys h k = (h.0, append-LacksNul xs ys h.1 k)

c_str-LacksNul : (t : Text) → LacksNul t → c_str t ≡ t
c_str-LacksNul [] h = refl
c_str-LacksNul (b ∷ bs) h = rw (h.0, c_str-LacksNul bs h.1) refl

digits-LacksNul : (t : Text) → AllDigits t → LacksNul t
digits-LacksNul [] h = tt
digits-LacksNul (b ∷ bs) h = (ground arith, digits-LacksNul bs h.1)

suffix-LacksNul : (req_id : ℕ) → LacksNul (suffix_of req_id)
suffix-LacksNul req_id =
    append-LacksNul (decimal 10 req_id) (codes "_0")
      (digits-LacksNul (decimal 10 req_id) (decimal-AllDigits 10 req_id)) (refl, (refl, tt))

key-LacksNul : (req_id : ℕ) → LacksNul (key_of req_id)
key-LacksNul req_id =
    append-LacksNul (codes "test_key_") (suffix_of req_id)
      (lacks_nul→LacksNul (codes "test_key_") refl) (suffix-LacksNul req_id)

value-LacksNul : (req_id : ℕ) → LacksNul (value_of req_id)
value-LacksNul req_id =
    append-LacksNul (codes "test_value_") (suffix_of req_id)
      (lacks_nul→LacksNul (codes "test_value_") refl) (suffix-LacksNul req_id)

sql-LacksNul : (key value : Text) → LacksNul key → LacksNul value → LacksNul (insert_sql key value)
sql-LacksNul key value h k =
    append-LacksNul (codes "INSERT INTO data (key_name, value) VALUES ('") _
      (lacks_nul→LacksNul (codes "INSERT INTO data (key_name, value) VALUES ('") refl)
      (append-LacksNul key _ h (
        append-LacksNul (codes "', '") _ (lacks_nul→LacksNul (codes "', '") refl)
          (append-LacksNul value (codes "')") k (lacks_nul→LacksNul (codes "')") refl))))

request-IsWhole : (req_id : ℕ) → IsWhole (key_of req_id) (value_of req_id)
request-IsWhole req_id =
    let k = key-LacksNul req_id in
    let v = value-LacksNul req_id in
    record {
      whole_key = c_str-LacksNul (key_of req_id) k;
      whole_value = c_str-LacksNul (value_of req_id) v;
      whole_sql =
          c_str-LacksNul (insert_sql (key_of req_id) (value_of req_id))
            (sql-LacksNul (key_of req_id) (value_of req_id) k v);
    }

module _ (backend : Backend) (db : DbManager) (lib : JsonLibrary) (json : ClientJson) (req_id : ℕ)
    (agrees : Agrees lib json (key_of req_id) (value_of req_id)) where
  -- The client's answers from a server whose connection delivers everything that is sent.
  pub record Delivers (a : RequestAnswers) (ts : List Text) (answers : List Sent) : Type 0 where
    pub fd : ℕ
    pub has_socket : a.socket ≡ some fd
    pub connected : (connect_loop fd 3 a.connects).1 ≡ true
    pub all_taken : Takes a.sends (length (request_text json req_id))
    pub arrived : joined ts ≡ joined (send_loop a.sends (request_text json req_id)).0
    pub all_answered :
        Takes answers (length (answer backend db lib json (key_of req_id) (value_of req_id) agrees))
    pub answered :
        a.received
        ≡ map got
            (sent_pieces (handle_client backend db lib (map got ts ++ would_block ∷ []) answers))
          ++ peer_closed ∷ []

  client_received :
      (fd : ℕ) (received : List Received) (pieces : List Text) (left response : Text)
      → left ≡ []
      → read_response received [] ≡ some response
      → (receive json fd received pieces left).1 ≡ is_success json (json.status response)
  unfolding receive finish_request
  client_received fd received pieces left response all_taken whole = rw (all_taken, whole) refl

  client_result :
      (fd : ℕ) (a : RequestAnswers) (response : Text)
      → a.socket ≡ some fd
      → (connect_loop fd 3 a.connects).1 ≡ true
      → (send_loop a.sends (request_text json req_id)).1 ≡ []
      → read_response a.received [] ≡ some response
      → (send_request json req_id a).1 ≡ is_success json (json.status response)
  unfolding send_request exchange
  client_result fd a response has_socket connected all_taken whole =
      rw (has_socket, connected)
        (client_received fd a.received (send_loop a.sends (request_text json req_id)).0
          (send_loop a.sends (request_text json req_id)).1 response all_taken whole)

  -- If the server and the client agree on the JSON texts of a request and of the two responses,
  -- the connection is made and everything that either side sends is taken and arrives, then the
  -- client counts its request as a success exactly if both databases of the server take the pair;
  -- the table then has the statement of the pair and otherwise none, and the cache has the pair
  -- exactly if it takes it.
  pub stored-send_request :
      (a : RequestAnswers) (ts : List Text) (answers : List Sent)
      → Delivers a ts answers
      → (let es = handle_client backend db lib (map got ts ++ would_block ∷ []) answers in
          let stored = is_stored backend db in
          ((send_request json req_id a).1 ≡ stored)
          × (table_of es
              ≡ (if stored then insert_sql (key_of req_id) (value_of req_id) ∷ [] else []))
          × (cache_of es ≡ (
              if set_cache (backend.redis_reply 0) db
              then (key_of req_id, value_of req_id) ∷ []
              else [])))
  unfolding request_text
  stored-send_request a ts answers delivers =
      let left =
        handle_client-Leaves backend db lib json (key_of req_id) (value_of req_id) agrees ts answers
          (delivers.arrived ∙ all_sent a.sends (request_text json req_id) delivers.all_taken)
          (request-IsWhole req_id) in
      (
        client_result delivers.fd a
              (answer backend db lib json (key_of req_id) (value_of req_id) agrees)
              delivers.has_socket delivers.connected
              ((send_loop-joined a.sends (request_text json req_id)).1 delivers.all_taken)
              (ap (λ r. read_response r []) delivers.answered
                ∙ read_response-got _ []
                ∙ ap (λ ps. some (joined ps)) left.pieces
                ∙ ap some (all_sent answers _ delivers.all_answered))
            ∙ answer_read backend db lib json (key_of req_id) (value_of req_id) agrees,
        left.table,
        left.cache,
      )
