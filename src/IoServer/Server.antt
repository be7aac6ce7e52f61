-- ===== src/IoServer/Server.antt =====
-- `Server` and `main` of ioserver_demo/src/server/server.cpp, but for the handling of a request.
use prog_playground.Prelude.{
  ℕ, Bool, true, false, ◌&&◌, ◌||◌, not, Option, none, some, List, [], ◌∷◌, ◌++◌, codes, ◌==◌,
  if◌then◌else◌,
}
use prog_playground.Multiplex.{Event}
use prog_playground.IoServer.{Text}
use prog_playground.IoServer.Db.{
  DbManager, RedisContext, connect_mysql, connect_redis, disconnect, update_mysql_config,
  update_redis_config,
}

-- The two global flags, which the signal handler sets.
pub record Flags : Type 0 where
  pub running : Bool
  pub reload_config : Bool

pub data Signal : Type 0 where
  sigterm sigint sighup : Signal
  other_signal : ℕ → Signal

unfoldable pub signal_handler : Signal → Flags → Flags
signal_handler sigterm f = record f { running = false }
signal_handler sigint f = record f { running = false }
signal_handler sighup f = record f { reload_config = true }
signal_handler (other_signal n) f = f

-- The answers of the two calls of `fcntl`; `none` is -1.
unfoldable pub set_non_blocking : (flags : Option ℕ) (set : Bool) → Bool
set_non_blocking flags set = elim flags [ none ↦ false | some f ↦ set ]

pub record MysqlConfig : Type 0 where
  pub host : Text
  pub user : Text
  pub password : Text
  pub database : Text

-- The members of the configuration file in the order in which they are read; `none` or `false` is
-- one that is missing or is not of its type, which throws.
pub record ConfigFile : Type 0 where
  pub opened_and_parsed : Bool
  pub port : Option ℕ
  pub num_threads : Option ℕ
  pub logging : Bool
  pub mysql : Option MysqlConfig
  pub redis : Option (Text × ℕ)

pub record Server : Type 0 where
  pub port : ℕ
  pub threads : ℕ
  pub db : DbManager
  pub serverfd : Option ℕ
  pub has_io : Bool

-- The default of the parameter `port` of `updateMySQLConfig`.
abbrev pub default_mysql_port : ℕ
default_mysql_port = 3306

-- The settings read before an exception stay.
unfoldable pub read_databases : ConfigFile → Server → Server × Bool
read_databases c s = elim c.mysql [
  | none ↦ (s, false)
  | some m ↦
      let s' = record s {
        db = update_mysql_config m.host m.user m.password m.database default_mysql_port s.db;
      } in
      elim c.redis [
        | none ↦ (s', false)
        | some r ↦ (record s' { db = update_redis_config r.0 r.1 s'.db }, true)
      ]
]

-- The second component tells that nothing was thrown.
unfoldable pub initialize_from_config : ConfigFile → Server → Server × Bool
unfolding read_databases
initialize_from_config c s =
    if c.opened_and_parsed
    then elim c.port [
      | none ↦ (s, false)
      | some port ↦
          let s1 = record s { port = port } in
          elim c.num_threads [
            | none ↦ (s1, false)
            | some n ↦
                let s2 = record s1 { threads = n } in
                if c.logging then read_databases c s2 else (s2, false)
          ]
    ]
    else (s, false)

-- What the system and the client libraries answer to the steps of `init`.
pub record InitAnswers : Type 0 where
  pub config : ConfigFile
  pub socket : Option ℕ
  pub option_set : Bool
  pub bound : Bool
  pub listening : Bool
  pub flags : Option ℕ
  pub flags_set : Bool
  pub mysql_initialised : Bool
  pub mysql_connected : Bool
  pub redis : RedisContext

-- From `connectMySQL` on.
unfoldable pub init_databases : InitAnswers → Server → Server × Bool
init_databases a s =
    let (db1, mysql) = connect_mysql a.mysql_initialised a.mysql_connected s.db in
    let (db2, redis) = connect_redis a.redis db1 in
    if not mysql
    then (record s { db = db1 }, false)
    else if not redis
    then (record s { db = db2 }, false)
    else (record s { db = db2; has_io = true }, true)

-- From `setsockopt` on.
unfoldable pub init_socket : InitAnswers → Server → Server × Bool
unfolding init_databases set_non_blocking
init_socket a s =
    if not a.option_set
    then (s, false)
    else if not a.bound
    then (s, false)
    else if not a.listening
    then (s, false)
    else if not (set_non_blocking a.flags a.flags_set)
    then (s, false)
    else init_databases a s

unfoldable pub init : InitAnswers → Server → Server × Bool
unfolding init_socket initialize_from_config
init a s =
    let (s1, configured) = initialize_from_config a.config s in
    if not configured then (s1, false) else elim a.socket [
      | none ↦ (record s1 { serverfd = none }, false)
      | some fd ↦ init_socket a (record s1 { serverfd = some fd })
    ]

-- What `handleNewConnection` does, by the answers of `accept` and `fcntl`.
pub data Connection : Type 0 where
  nothing_to_accept : Connection
  refused watched : ℕ → Connection

unfoldable pub handle_new_connection :
    (client : Option ℕ) (flags : Option ℕ) (set : Bool) → Connection
unfolding set_non_blocking
handle_new_connection none flags set = nothing_to_accept
handle_new_connection (some fd) flags set =
    if set_non_blocking flags set then watched fd else refused fd

-- What the loop does with an event: it accepts a connection, or gives a task to the pool.
pub data Action : Type 0 where
  accept_one : Action
  enqueue_client : ℕ → Action

-- An event stands with whether the pool takes a task: `enqueue` throws while the pool is stopped. The
-- second component tells that nothing was thrown.
unfoldable pub dispatch : (serverfd : ℕ) → List (Event × Bool) → List Action × Bool
dispatch serverfd [] = ([], true)
dispatch serverfd ((e, accepts) ∷ es) =
    let (rest, done) = dispatch serverfd es in
    if e.fd == serverfd
    then (accept_one ∷ rest, done)
    else if accepts
    then (enqueue_client e.fd ∷ rest, done)
    else ([], false)

-- What `wait` returns, with `errno` for -1.
pub data Waited : Type 0 where
  events : List (Event × Bool) → Waited
  interrupted wait_failed : Waited

-- How the loop of `run` ends: with the clean-up behind it, or with an exception that leaves `run`;
-- `looping` if the turns end.
pub data LoopEnd : Type 0 where
  cleaning escaping looping : LoopEnd

-- The loop of `run`: each turn has the value of `running` before it and the result of `wait`.
unfoldable pub event_loop : (serverfd : ℕ) → List (Bool × Waited) → List Action × LoopEnd
unfolding dispatch
event_loop serverfd [] = ([], looping)
event_loop serverfd ((false, w) ∷ rest) = ([], cleaning)
event_loop serverfd ((true, events es) ∷ rest) =
    let (actions, done) = dispatch serverfd es in
    let (later, end) = event_loop serverfd rest in
    if done then (actions ++ later, end) else (actions, escaping)
event_loop serverfd ((true, interrupted) ∷ rest) = event_loop serverfd rest
event_loop serverfd ((true, wait_failed) ∷ rest) = ([], cleaning)

-- The steps of `cleanup` that release something.
pub data Released : Type 0 where
  server_socket : ℕ → Released
  thread_pool io_object : Released

unfoldable pub cleanup : Server → Flags → Server × Flags × List Released
cleanup s f = (
  record s { serverfd = none; db = disconnect s.db; has_io = false },
  record f { running = false },
  elim s.serverfd [ none ↦ [] | some fd ↦ server_socket fd ∷ [] ]
      ++ (thread_pool ∷ (if s.has_io then io_object ∷ [] else [])),
)

abbrev pub text_equal : Text → Text → Bool
text_equal [] [] = true
text_equal [] (y ∷ ys) = false
text_equal (x ∷ xs) [] = false
text_equal (x ∷ xs) (y ∷ ys) = x == y && text_equal xs ys

abbrev pub is_config_option : Text → Bool
is_config_option arg = text_equal arg (codes "-c") || text_equal arg (codes "--config")

-- The loop over the arguments behind the program's name.
unfoldable pub config_path : List Text → (path : Text) → Text
config_path [] path = path
config_path (arg ∷ []) path = path
config_path (arg ∷ next ∷ rest) path =
    let skipped = config_path rest next in
    let kept = config_path (next ∷ rest) path in if is_config_option arg then skipped else kept

-- One second of the loop of `main`: a reload that throws is tried again.
unfoldable pub main_turn : ConfigFile → Server → Flags → Server × Flags
unfolding initialize_from_config
main_turn config s f =
    let (s', loaded) = initialize_from_config config s in
    if f.reload_config
    then (s', if loaded then record f { reload_config = false } else f)
    else (s, f)
