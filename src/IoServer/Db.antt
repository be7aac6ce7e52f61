-- ===== src/IoServer/Db.antt =====
-- `DBManager`, ioserver_demo/src/server/db_manager.cpp. What the client libraries of MySQL and Redis
-- answer is an argument; the log has the calls that take and release a connection.
use prog_playground.Prelude.{
  ℕ, Bool, true, false, not, Option, none, some, List, [], ◌∷◌, ◌==◌, if◌then◌else◌,
}
use prog_playground.IoServer.{Text, c_str}

pub data DbCall : Type 0 where
  mysql_took mysql_closed redis_took redis_freed : DbCall

-- Which pointers are not null, the settings, and the calls so far, the last one first.
pub record DbManager : Type 0 where
  pub mysql : Bool
  pub redis : Bool
  pub mysql_host : Text
  pub mysql_user : Text
  pub mysql_password : Text
  pub mysql_database : Text
  pub mysql_port : ℕ
  pub redis_host : Text
  pub redis_port : ℕ
  pub calls : List DbCall

unfoldable pub close_mysql : DbManager → DbManager
close_mysql db =
    if db.mysql then record db { mysql = false; calls = mysql_closed ∷ db.calls } else db

unfoldable pub free_redis : DbManager → DbManager
free_redis db = if db.redis then record db { redis = false; calls = redis_freed ∷ db.calls } else db

unfoldable pub disconnect : DbManager → DbManager
unfolding close_mysql free_redis
disconnect db = free_redis (close_mysql db)

-- `initialised` and `connected` are the answers of `mysql_init` and `mysql_real_connect`.
unfoldable pub connect_mysql : (initialised connected : Bool) → DbManager → DbManager × Bool
connect_mysql initialised connected db =
    if not initialised
    then (record db { mysql = false }, false)
    else if not connected
    then (record db { mysql = false; calls = mysql_closed ∷ mysql_took ∷ db.calls }, false)
    else (record db { mysql = true; calls = mysql_took ∷ db.calls }, true)

-- The answer of `redisConnectWithTimeout`: no context, one with an error, or one that works.
pub data RedisContext : Type 0 where
  no_context broken_context good_context : RedisContext

unfoldable pub connect_redis : RedisContext → DbManager → DbManager × Bool
connect_redis no_context db = (record db { redis = false }, false)
connect_redis broken_context db =
    (record db { redis = false; calls = redis_freed ∷ redis_took ∷ db.calls }, false)
connect_redis good_context db = (record db { redis = true; calls = redis_took ∷ db.calls }, true)

-- `status` is the answer of `mysql_query`.
unfoldable pub execute_sql : (status : ℕ) → DbManager → Bool
execute_sql status db = if not db.mysql then false else status == 0

unfoldable pub query : (status : ℕ) (has_result : Bool) → DbManager → Bool
query status has_result db =
    if not db.mysql then false else if not (status == 0) then false else has_result

-- The types of a reply that matter, with the text of a string.
pub data Reply : Type 0 where
  error_reply other_reply : Reply
  string_reply : Text → Reply

abbrev pub is_error : Reply → Bool
is_error error_reply = true
is_error other_reply = false
is_error (string_reply t) = false

-- `reply` is the answer of `redisCommand`, if any.
unfoldable pub set_cache : (reply : Option Reply) → DbManager → Bool
set_cache reply db =
    if not db.redis then false else elim reply [ none ↦ false | some r ↦ not (is_error r) ]

abbrev pub text_of : Reply → Text
text_of error_reply = []
text_of other_reply = []
text_of (string_reply t) = c_str t

unfoldable pub get_cache : (reply : Option Reply) → DbManager → Text
get_cache reply db = if not db.redis then [] else elim reply [ none ↦ [] | some r ↦ text_of r ]

unfoldable pub update_mysql_config :
    (host user password database : Text) (port : ℕ) → DbManager → DbManager
update_mysql_config host user password database port db = record db {
  mysql_host = host;
  mysql_user = user;
  mysql_password = password;
  mysql_database = database;
  mysql_port = port;
}

unfoldable pub update_redis_config : (host : Text) (port : ℕ) → DbManager → DbManager
update_redis_config host port db = record db { redis_host = host; redis_port = port }
