-- ===== src/Tests/Composed.antt =====
-- Inputs for the composition of the server and the benchmark client.
use prog_playground.Prelude.{
  ◌≡◌, refl, true, false, some, List, [], ◌∷◌, ◌++◌, map, take, drop, length, codes, decimal,
  if◌then◌else◌,
}
use prog_playground.IoServer.{
  Text, Sent, took, send_again, got, would_block, peer_closed, send_loop,
}
use prog_playground.IoServer.Db
use prog_playground.IoServer.Db.{DbManager, set_cache}
use prog_playground.IoServer.Request.{
  Backend, JsonLibrary, text, insert_sql, process_item, process_key_value, handle_client,
}
use prog_playground.IoServer.Server.{text_equal}
use prog_playground.IoServer.Benchmark.{
  ClientJson, RequestAnswers, connect_loop, request_text, send_request,
}
use prog_playground.IoServer.Stored.{cache_of, table_of}
use prog_playground.IoServer.Handled.{Agrees, is_stored}
use prog_playground.IoServer.EndToEnd.{key_of, value_of, Delivers, stored-send_request}

-- A pair of texts, written with the length of the first one in front.
abbrev paired : Text → Text → Text
paired a b = length a ∷ (a ++ b)

abbrev first : Text → Text
first [] = []
first (n ∷ t) = take n t

abbrev second : Text → Text
second [] = []
second (n ∷ t) = drop n t

abbrev pairs : JsonLibrary
pairs = record {
  Json = Text × Text;
  parse = λ t. some (first t, second t);
  parse_error = λ t. t;
  is_array = λ j. true;
  items = λ j. j ∷ [];
  string_at = λ j name. text (if text_equal name (codes "key") then j.0 else j.1);
  entry_at = λ j name. some (if text_equal name (codes "key") then j.0 else j.1);
  entry_error = λ j name. name;
  dump = λ status message. some (paired status message);
  dump_error = λ status message. message;
}

abbrev client_pairs : ClientJson
client_pairs = record { dump_item = paired; status = λ t. some (first t) }

pairs-Agrees : Agrees pairs client_pairs (key_of 12) (value_of 12)
unfolding decimal
pairs-Agrees = record {
  batch = (key_of 12, value_of 12);
  item = (key_of 12, value_of 12);
  not_empty = λ e. absurd (cc);
  parsed = refl;
  array = refl;
  one_item = refl;
  has_key = refl;
  has_value = refl;
  success_text = paired (codes "success") (codes "Data processed successfully");
  success_dumped = refl;
  success_read = refl;
  error_text = paired (codes "error") (codes "Batch processing failed");
  error_dumped = refl;
  error_read = refl;
}

-- The cache takes every entry, the table none.
abbrev table_full : Backend
table_full = record { redis_reply = λ i. some Db.other_reply; mysql_status = λ i. 1 }

abbrev databases : DbManager
databases = record {
  mysql = true;
  redis = true;
  mysql_host = [];
  mysql_user = [];
  mysql_password = [];
  mysql_database = [];
  mysql_port = 3306;
  redis_host = [];
  redis_port = 6379;
  calls = [];
}

abbrev slowly : List Sent
slowly = took 5 ∷ send_again ∷ took 100 ∷ []

abbrev arrived : List Text
arrived =
    take 20 (paired (key_of 12) (value_of 12)) ∷ drop 20 (paired (key_of 12) (value_of 12)) ∷ []

abbrev answers : RequestAnswers
answers = record {
  socket = some 3;
  connects = false ∷ true ∷ [];
  sends = slowly;
  received =
      got (take 5 (paired (codes "error") (codes "Batch processing failed")))
      ∷ got (drop 5 (paired (codes "error") (codes "Batch processing failed")))
      ∷ peer_closed
      ∷ [];
}

answers-Delivers :
    Delivers table_full databases pairs client_pairs 12 pairs-Agrees answers arrived slowly
unfolding decimal connect_loop request_text send_loop handle_client set_cache Db.execute_sql
    pairs-Agrees process_item process_key_value
answers-Delivers = record {
  fd = 3;
  has_socket = refl;
  connected = refl;
  all_taken = refl;
  arrived = refl;
  all_answered = refl;
  answered = refl;
}

stored-send_request_example :
    ((send_request client_pairs 12 answers).1 ≡ is_stored table_full databases)
    × (table_of
          (handle_client table_full databases pairs (map got arrived ++ would_block ∷ []) slowly)
        ≡ (if is_stored table_full databases
            then insert_sql (key_of 12) (value_of 12) ∷ []
            else []))
    × (cache_of
          (handle_client table_full databases pairs (map got arrived ++ would_block ∷ []) slowly)
        ≡ (if set_cache (table_full.redis_reply 0) databases
            then (key_of 12, value_of 12) ∷ []
            else []))
stored-send_request_example =
    stored-send_request table_full databases pairs client_pairs 12 pairs-Agrees answers arrived
      slowly answers-Delivers
