-- ===== src/IoServer/Handled.antt =====
-- What the handler does with a request of the benchmark client.
use prog_playground.Prelude.{
  ◌≡◌, ◌≢◌, ◌∙◌, ap, refl, sym, Bool, true, false, ◌&&◌, some, List, [], ◌∷◌, ◌++◌, map, codes,
  Bool-cases, inl, inr, if◌then◌else◌,
}
use mathlib.Core.Path.{subst}
use mathlib.Core.List.{append-nil}
use prog_playground.IoServer.{Text, got, would_block, Sent, send_loop, c_str}
use prog_playground.IoServer.Db.{DbManager, set_cache, execute_sql}
use prog_playground.IoServer.Request.{
  Effect, closed, complete, insert_sql, Backend, JsonLibrary, text, success, outcome_of,
  process_key_value, process_item, process_batch, process_request, respond, send_response, sends,
  after_item, finish_request, handle_client,
}
use prog_playground.IoServer.Benchmark.{ClientJson, is_success}
use prog_playground.IoServer.Stored.{cache_of, table_of}
use prog_playground.IoServer.Sending.{joined}
use prog_playground.IoServer.Pieces.{
  read_request-got, sent_pieces, sends-Tail, finish_request-complete,
}

-- What the two uses of the JSON library do with the request for a pair, and with the two responses.
pub record Agrees (lib : JsonLibrary) (json : ClientJson) (key value : Text) : Type 0 where
  pub batch : lib.Json
  pub item : lib.Json
  pub not_empty : json.dump_item key value ≢ []
  pub parsed : lib.parse (json.dump_item key value) ≡ some batch
  pub array : lib.is_array batch ≡ true
  pub one_item : lib.items batch ≡ item ∷ []
  pub has_key : lib.string_at item (codes "key") ≡ text key
  pub has_value : lib.string_at item (codes "value") ≡ text value
  pub success_text : Text
  pub success_dumped :
      lib.dump (codes "success") (codes "Data processed successfully") ≡ some success_text
  pub success_read : json.status success_text ≡ some (codes "success")
  pub error_text : Text
  pub error_dumped : lib.dump (codes "error") (codes "Batch processing failed") ≡ some error_text
  pub error_read : json.status error_text ≡ some (codes "error")

-- No text that is passed to the databases for a pair is cut at a NUL.
pub record IsWhole (key value : Text) : Type 0 where
  pub whole_key : c_str key ≡ key
  pub whole_value : c_str value ≡ value
  pub whole_sql : c_str (insert_sql key value) ≡ insert_sql key value

-- Whether both databases take the only item of the request.
abbrev pub is_stored : Backend → DbManager → Bool
is_stored backend db =
    set_cache (backend.redis_reply 0) db && execute_sql (backend.mysql_status 0) db

module _ (backend : Backend) (db : DbManager) (lib : JsonLibrary) (json : ClientJson)
    (key value : Text) (agrees : Agrees lib json key value) where
  done_with : List Effect × Bool
  done_with = process_key_value backend db 0 key value

  process_item_lem :
      process_item backend db lib 0 agrees.item ≡ (done_with.0, outcome_of backend db done_with.1)
  unfolding process_item done_with
  process_item_lem = rw (agrees.has_key, agrees.has_value, process_item) refl

  process_batch_lem :
      process_batch backend db lib 0 (agrees.item ∷ [])
      ≡ (done_with.0, outcome_of backend db done_with.1)
  unfolding process_batch
  process_batch_lem = ap (λ r. after_item r ([], success)) process_item_lem ∙ alone done_with.1
    where
      alone :
          (b : Bool)
          → after_item (done_with.0, outcome_of backend db b) ([], success)
            ≡ (done_with.0, outcome_of backend db b)
      alone true = ap (λ es. (es, success)) (append-nil done_with.0)
      alone false = refl

  -- The response of the server.
  abbrev pub answer : Text
  answer = if is_stored backend db then agrees.success_text else agrees.error_text

  responded :
      (answers : List Sent) (b : Bool)
      → respond backend db lib answers (outcome_of backend db b) (codes "Batch processing failed")
        ≡ sends (send_loop answers (if b then agrees.success_text else agrees.error_text)).0
          ++ closed ∷ []
  unfolding respond send_response
  responded answers true = rw (agrees.success_dumped, send_response) refl
  responded answers false = rw (agrees.error_dumped, send_response) refl

  -- What the processing of the pair does, whatever follows.
  record Stores (r : List Effect × Bool) : Type 0 where
    result : r.1 ≡ is_stored backend db
    pieces : (xs : List Effect) → sent_pieces (r.0 ++ xs) ≡ sent_pieces xs
    table :
        (xs : List Effect)
        → table_of (r.0 ++ xs)
          ≡ (if is_stored backend db then insert_sql key value ∷ [] else []) ++ table_of xs
    cache :
        (xs : List Effect)
        → cache_of (r.0 ++ xs)
          ≡ (if set_cache (backend.redis_reply 0) db then (key, value) ∷ [] else []) ++ cache_of xs

  process_key_value-Stores : IsWhole key value → Stores done_with
  unfolding process_key_value done_with
  process_key_value-Stores whole = elim (Bool-cases (set_cache (backend.redis_reply 0) db)) [
    | inr refused ↦
        rw (refused, process_key_value)
          (record {
            result = rw refused refl;
            pieces = λ xs. refl;
            table = λ xs. rw refused refl;
            cache = λ xs. rw refused refl;
          })
    | inl kept ↦ elim (Bool-cases (execute_sql (backend.mysql_status 0) db)) [
      | inr refused ↦
          rw (kept, refused, process_key_value)
            (record {
              result = rw (kept, refused) refl;
              pieces = λ xs. refl;
              table = λ xs. rw (kept, refused) refl;
              cache = λ xs. rw (kept, whole.whole_key, whole.whole_value) refl;
            })
      | inl done ↦
          rw (kept, done, process_key_value)
            (record {
              result = rw (kept, done) refl;
              pieces = λ xs. refl;
              table = λ xs. rw (kept, done, whole.whole_sql) refl;
              cache = λ xs. rw (kept, whole.whole_key, whole.whole_value) refl;
            })
    ]
  ]

  processed :
      (answers : List Sent)
      → IsWhole key value
      → process_request backend db lib answers (json.dump_item key value)
        ≡ done_with.0 ++ (sends (send_loop answers answer).0 ++ closed ∷ [])
  unfolding process_request
  processed answers whole =
      rw (agrees.parsed, agrees.array, agrees.one_item, process_batch_lem, process_request)
        (ap (◌++◌ done_with.0) (
          responded answers done_with.1
          ∙ ap
              (λ b.
                sends (send_loop answers (if b then agrees.success_text else agrees.error_text)).0
                ++ closed ∷ [])
              (process_key_value-Stores whole).result))

  handled :
      (ts : List Text) (answers : List Sent)
      → joined ts ≡ json.dump_item key value
      → IsWhole key value
      → handle_client backend db lib (map got ts ++ would_block ∷ []) answers
        ≡ done_with.0 ++ (sends (send_loop answers answer).0 ++ closed ∷ [])
  unfolding handle_client
  handled ts answers e whole =
      ap (finish_request backend db lib answers) (read_request-got ts [] ∙ ap complete e)
      ∙ finish_request-complete backend db lib answers (json.dump_item key value) agrees.not_empty
      ∙ processed answers whole

  -- What the handling leaves: the pieces of the answer, the row and the entry.
  pub record Leaves (answers : List Sent) (es : List Effect) : Type 0 where
    pub pieces : sent_pieces es ≡ (send_loop answers answer).0
    pub table : table_of es ≡ (if is_stored backend db then insert_sql key value ∷ [] else [])
    pub cache :
        cache_of es ≡ (if set_cache (backend.redis_reply 0) db then (key, value) ∷ [] else [])

  pub handle_client-Leaves :
      (ts : List Text) (answers : List Sent)
      → joined ts ≡ json.dump_item key value
      → IsWhole key value
      → Leaves answers (handle_client backend db lib (map got ts ++ would_block ∷ []) answers)
  handle_client-Leaves ts answers e whole =
      let done = process_key_value-Stores whole in
      let rest = sends-Tail (send_loop answers answer).0 in
      let after = sends (send_loop answers answer).0 ++ closed ∷ [] in
      subst (Leaves answers) (sym (handled ts answers e whole)) (record {
        pieces = done.pieces after ∙ rest.pieces;
        table = done.table after ∙ ap (◌++◌ _) rest.table ∙ append-nil _;
        cache = done.cache after ∙ ap (◌++◌ _) rest.cache ∙ append-nil _;
      })

  -- What the client makes of the answer.
  pub answer_read : is_success json (json.status answer) ≡ is_stored backend db
  answer_read = elim (Bool-cases (is_stored backend db)) [
    | inl stored ↦ rw (stored, agrees.success_read) refl
    | inr lost ↦ rw (lost, agrees.error_read) refl
  ]
