-- ===== src/IoServer/Request.antt =====
-- `handleClient` and `processKeyValue` of ioserver_demo/src/server/server.cpp.
use prog_playground.Prelude.{
  ℕ, ◌+◌, Bool, true, false, not, Option, none, some, List, [], ◌∷◌, ◌++◌, codes, if◌then◌else◌,
}
use prog_playground.IoServer.{
  Text, Received, got, would_block, recv_failed, peer_closed, Sent, send_loop, c_str,
}
use prog_playground.IoServer.Db.{DbManager, Reply, set_cache, execute_sql}

-- What the handler does to the outside, in order. `escaped` is an exception that leaves the handler,
-- and goes to the future of its task; `aborted` is the end of the program by an assertion.
pub data Effect : Type 0 where
  cached : (key value : Text) → Effect
  inserted : (sql : Text) → Effect
  sent : Text → Effect
  closed escaped aborted : Effect

-- How the reading loop ends; `unread` if the answers end while it waits for one.
pub data Request : Type 0 where
  complete : Text → Request
  read_failed client_left unread : Request

unfoldable pub read_request : List Received → (bytes : Text) → Request
read_request [] bytes = unread
read_request (got piece ∷ answers) bytes = read_request answers (bytes ++ piece)
read_request (would_block ∷ answers) bytes = complete bytes
read_request (recv_failed ∷ answers) bytes = read_failed
read_request (peer_closed ∷ answers) bytes = client_left

abbrev pub insert_sql : (key value : Text) → Text
insert_sql key value =
    codes "INSERT INTO data (key_name, value) VALUES ('"
    ++ (key ++ (codes "', '" ++ (value ++ codes "')")))

-- The answers of the databases to the commands for the item with a number.
pub record Backend : Type 0 where
  pub redis_reply : ℕ → Option Reply
  pub mysql_status : ℕ → ℕ

-- `item[name].get<std::string>()` with a constant `item`: the text, an exception with its `what`, or
-- the failed assertion that the member is there.
pub data Member : Type 0 where
  text : Text → Member
  threw : (what : Text) → Member
  missing : Member

-- The JSON library, as far as the handler uses it. A failure throws, with the text of `what`.
-- `entry_at` is the same expression with a value that is not constant, where a member that is
-- missing is made and null. `dump` throws if a text is not UTF-8.
pub record JsonLibrary : Type 1 where
  pub Json : Type 0
  pub parse : Text → Option Json
  pub parse_error : Text → Text
  pub is_array : Json → Bool
  pub items : Json → List Json
  pub string_at : Json → (name : Text) → Member
  pub entry_at : Json → (name : Text) → Option Text
  pub entry_error : Json → (name : Text) → Text
  pub dump : (status message : Text) → Option Text
  pub dump_error : (status message : Text) → Text

-- How the processing ends: by success or failure, by an exception, or by an assertion.
pub data Outcome : Type 0 where
  success failure assertion : Outcome
  exception : (what : Text) → Outcome

abbrev pub after_item : List Effect × Outcome → List Effect × Outcome → List Effect × Outcome
after_item (effects, success) (rest, outcome) = (effects ++ rest, outcome)
after_item (effects, failure) r = (effects, failure)
after_item (effects, assertion) r = (effects, assertion)
after_item (effects, exception what) r = (effects, exception what)

abbrev pub sends : List Text → List Effect
sends [] = []
sends (t ∷ ts) = sent t ∷ sends ts

module _ (backend : Backend) (db : DbManager) where
  -- What was done, and the result.
  unfoldable pub process_key_value : (i : ℕ) (key value : Text) → List Effect × Bool
  process_key_value i key value =
      if not (set_cache (backend.redis_reply i) db)
      then ([], false)
      else if not (execute_sql (backend.mysql_status i) db)
      then (cached (c_str key) (c_str value) ∷ [], false)
      else (cached (c_str key) (c_str value) ∷ inserted (c_str (insert_sql key value)) ∷ [], true)

  abbrev pub outcome_of : Bool → Outcome
  outcome_of done = if done then success else failure

  abbrev pub process_pair : (i : ℕ) (key value : Text) → List Effect × Outcome
  process_pair i key value =
      let (effects, done) = process_key_value i key value in (effects, outcome_of done)

  module _ (lib : JsonLibrary) where
    open lib use {
      Json, parse, parse_error, is_array, items, string_at, entry_at, entry_error, dump, dump_error,
    }

    -- One item: both members are read before the databases are called, the key here first.
    unfoldable pub process_item : (i : ℕ) → Json → List Effect × Outcome
    process_item i item = elim (string_at item (codes "key")) [
      | missing ↦ ([], assertion)
      | threw what ↦ ([], exception what)
      | text key ↦ elim (string_at item (codes "value")) [
        | missing ↦ ([], assertion)
        | threw what ↦ ([], exception what)
        | text value ↦ process_pair i key value
      ]
    ]

    -- A request that is not an array.
    unfoldable pub process_single : Json → List Effect × Outcome
    process_single request = elim (entry_at request (codes "key")) [
      | none ↦ ([], exception (entry_error request (codes "key")))
      | some key ↦ elim (entry_at request (codes "value")) [
        | none ↦ ([], exception (entry_error request (codes "value")))
        | some value ↦ process_pair 0 key value
      ]
    ]

    -- The loop over a batch stops at the first item that fails.
    unfoldable pub process_batch : (i : ℕ) → List Json → List Effect × Outcome
    process_batch i [] = ([], success)
    process_batch i (item ∷ rest) = after_item (process_item i item) (process_batch (i + 1) rest)

    abbrev pub failed_batch : Text
    failed_batch = codes "Batch processing failed"

    abbrev pub failed_single : Text
    failed_single = codes "Single key-value processing failed"

    -- The handling of an exception: its response is passed to one call of `send`.
    unfoldable pub respond_error : (what : Text) → List Effect
    respond_error what = elim (dump (codes "error") what) [
      | none ↦ escaped ∷ []
      | some resp_str ↦ sent resp_str ∷ closed ∷ []
    ]

    -- Any other response goes out in a loop.
    unfoldable pub send_response : List Sent → (status message : Text) → List Effect
    unfolding respond_error
    send_response answers status message = elim (dump status message) [
      | none ↦ respond_error (dump_error status message)
      | some resp_str ↦ sends (send_loop answers resp_str).0 ++ closed ∷ []
    ]

    unfoldable pub respond : List Sent → Outcome → (error_msg : Text) → List Effect
    unfolding send_response respond_error
    respond answers success error_msg =
        send_response answers (codes "success") (codes "Data processed successfully")
    respond answers failure error_msg = send_response answers (codes "error") error_msg
    respond answers assertion error_msg = aborted ∷ []
    respond answers (exception what) error_msg = respond_error what

    -- The processing of a request that is not empty, up to the close.
    unfoldable pub process_request : List Sent → Text → List Effect
    unfolding process_batch process_single respond respond_error
    process_request answers bytes = elim (parse bytes) [
      | none ↦ respond_error (parse_error bytes)
      | some json ↦
          if is_array json
          then (let (effects, outcome) = process_batch 0 (items json) in
              effects ++ respond answers outcome failed_batch)
          else (let (effects, outcome) = process_single json in
              effects ++ respond answers outcome failed_single)
    ]

    unfoldable pub finish_request : List Sent → Request → List Effect
    unfolding process_request
    finish_request answers (complete []) = []
    finish_request answers (complete (b ∷ bs)) = process_request answers (b ∷ bs)
    finish_request answers read_failed = closed ∷ []
    finish_request answers client_left = closed ∷ []
    finish_request answers unread = []

    unfoldable pub handle_client : List Received → List Sent → List Effect
    unfolding read_request finish_request
    handle_client received answers = finish_request answers (read_request received [])
