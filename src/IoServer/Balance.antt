-- ===== src/IoServer/Balance.antt =====
-- The server gives back the database connections that it takes.
use prog_playground.Prelude.{
  suc, ◌+◌, ◌≡◌, ◌∙◌, arith, Bool, true, false, not, flag, List, [], ◌∷◌, Option, none, some,
  if_both, ℕ, Bool-cases, inl, inr,
}
use prog_playground.IoServer.Db.{
  DbManager, DbCall, mysql_took, mysql_closed, redis_took, redis_freed, RedisContext, no_context,
  broken_context, good_context, connect_mysql, connect_redis, disconnect, close_mysql, free_redis,
  update_mysql_config, update_redis_config,
}
use prog_playground.IoServer.Server.{
  Server, Flags, ConfigFile, InitAnswers, read_databases, initialize_from_config, init_databases,
  init_socket, init, set_non_blocking, cleanup,
}

-- Connections taken and given back, of each kind.
abbrev pub mysql_taken : List DbCall → ℕ
mysql_taken [] = 0
mysql_taken (mysql_took ∷ cs) = suc (mysql_taken cs)
mysql_taken (c ∷ cs) = mysql_taken cs

abbrev pub mysql_given : List DbCall → ℕ
mysql_given [] = 0
mysql_given (mysql_closed ∷ cs) = suc (mysql_given cs)
mysql_given (c ∷ cs) = mysql_given cs

abbrev pub redis_taken : List DbCall → ℕ
redis_taken [] = 0
redis_taken (redis_took ∷ cs) = suc (redis_taken cs)
redis_taken (c ∷ cs) = redis_taken cs

abbrev pub redis_given : List DbCall → ℕ
redis_given [] = 0
redis_given (redis_freed ∷ cs) = suc (redis_given cs)
redis_given (c ∷ cs) = redis_given cs

-- What is taken and not given back is what the two pointers hold.
pub record IsBalanced (db : DbManager) : Type 0 where
  pub mysql : mysql_taken db.calls ≡ mysql_given db.calls + flag db.mysql
  pub redis : redis_taken db.calls ≡ redis_given db.calls + flag db.redis

connect_mysql-IsBalanced :
    (initialised connected : Bool) (db : DbManager)
    → db.mysql ≡ false
    → IsBalanced db
    → IsBalanced (connect_mysql initialised connected db).0
unfolding connect_mysql
connect_mysql-IsBalanced false false db h b = record {
  mysql = ground (arith, h, b.mysql);
  redis = ground (arith, b.redis);
}
connect_mysql-IsBalanced false true db h b = record {
  mysql = ground (arith, h, b.mysql);
  redis = ground (arith, b.redis);
}
connect_mysql-IsBalanced true false db h b = record {
  mysql = ground (arith, h, b.mysql);
  redis = ground (arith, b.redis);
}
connect_mysql-IsBalanced true true db h b = record {
  mysql = ground (arith, h, b.mysql);
  redis = ground (arith, b.redis);
}

connect_redis-IsBalanced :
    (c : RedisContext) (db : DbManager)
    → db.redis ≡ false
    → IsBalanced db
    → IsBalanced (connect_redis c db).0
unfolding connect_redis
connect_redis-IsBalanced no_context db h b = record {
  mysql = ground (arith, h, b.mysql);
  redis = ground (arith, h, b.redis);
}
connect_redis-IsBalanced broken_context db h b = record {
  mysql = ground (arith, h, b.mysql);
  redis = ground (arith, h, b.redis);
}
connect_redis-IsBalanced good_context db h b = record {
  mysql = ground (arith, h, b.mysql);
  redis = ground (arith, h, b.redis);
}

disconnect-IsBalanced :
    (db : DbManager)
    → IsBalanced db
    → IsBalanced (disconnect db) × ((disconnect db).mysql ≡ false) × ((disconnect db).redis ≡ false)
unfolding disconnect close_mysql free_redis
disconnect-IsBalanced db b = (
  record { mysql = ground (arith, b.mysql); redis = ground (arith, b.redis) },
  ground arith,
  ground arith,
)

-- No connection is held yet.
pub record IsFresh (db : DbManager) : Type 0 where
  pub mysql : db.mysql ≡ false
  pub redis : db.redis ≡ false
  pub balanced : IsBalanced db

redis-connect_mysql :
    (initialised connected : Bool) (db : DbManager)
    → (connect_mysql initialised connected db).0.redis ≡ db.redis
unfolding connect_mysql
redis-connect_mysql initialised connected db = ground arith

init_databases-IsBalanced :
    (a : InitAnswers) (s : Server) → IsFresh s.db → IsBalanced (init_databases a s).0.db
unfolding init_databases
init_databases-IsBalanced a s h =
    let db1 = (connect_mysql a.mysql_initialised a.mysql_connected s.db).0 in
    let b1 : IsBalanced db1 =
      connect_mysql-IsBalanced a.mysql_initialised a.mysql_connected s.db h.mysql h.balanced in
    let null : db1.redis ≡ false =
      redis-connect_mysql a.mysql_initialised a.mysql_connected s.db ∙ h.redis in
    let b2 : IsBalanced (connect_redis a.redis db1).0 =
      connect_redis-IsBalanced a.redis db1 null b1 in
    elim (Bool-cases (connect_mysql a.mysql_initialised a.mysql_connected s.db).1) [
      | inr failed ↦ rw (failed, init_databases) b1
      | inl connected ↦ elim (Bool-cases (connect_redis a.redis db1).1) [
        | inr failed ↦ rw (connected, failed, init_databases) b2
        | inl both ↦ rw (connected, both, init_databases) b2
      ]
    ]

init_socket-IsBalanced :
    (a : InitAnswers) (s : Server) → IsFresh s.db → IsBalanced (init_socket a s).0.db
unfolding init_socket
init_socket-IsBalanced a s h =
    let P : Server × Bool → Type 0 = λ r. IsBalanced r.0.db in
    let b = h.balanced in
    if_both P (not a.option_set) b (
      if_both P (not a.bound) b (
        if_both P (not a.listening) b (
          if_both P (not (set_non_blocking a.flags a.flags_set)) b
            (init_databases-IsBalanced a s h))))

config-IsFresh :
    (c : ConfigFile) (s : Server) → IsFresh s.db → IsFresh (initialize_from_config c s).0.db
unfolding initialize_from_config read_databases update_mysql_config update_redis_config
config-IsFresh c s h = record {
  mysql = ground (arith, h.mysql);
  redis = ground (arith, h.redis);
  balanced = record {
    mysql = ground (arith, h.balanced.mysql);
    redis = ground (arith, h.balanced.redis);
  };
}

init-IsBalanced : (a : InitAnswers) (s : Server) → IsFresh s.db → IsBalanced (init a s).0.db
unfolding init
init-IsBalanced a s h =
    let P : Server × Bool → Type 0 = λ r. IsBalanced r.0.db in
    let fresh = config-IsFresh a.config s h in
    let s1 = (initialize_from_config a.config s).0 in
    if_both P (not (initialize_from_config a.config s).1) fresh.balanced
      (with_socket a s1 fresh a.socket)
  where
    with_socket :
        (a : InitAnswers) (s1 : Server)
        → IsFresh s1.db
        → (o : Option ℕ)
        → IsBalanced
            (elim o as (λ o. Server × Bool) [
              | none ↦ (record s1 { serverfd = none }, false)
              | some fd ↦ init_socket a (record s1 { serverfd = some fd })
            ]).0.db
    with_socket a s1 fresh none = fresh.balanced
    with_socket a s1 fresh (some fd) =
        init_socket-IsBalanced a (record s1 { serverfd = some fd }) fresh

-- Wherever the init of a server without connections ends, the cleanup after it has given back
-- every MySQL and Redis connection that was taken.
pub cleanup-init :
    (a : InitAnswers) (s : Server) (f : Flags)
    → IsFresh s.db
    → let calls = (cleanup (init a s).0 f).0.db.calls in
      (mysql_taken calls ≡ mysql_given calls) × (redis_taken calls ≡ redis_given calls)
unfolding cleanup
cleanup-init a s f h =
    let (b, mysql, redis) = disconnect-IsBalanced (init a s).0.db (init-IsBalanced a s h) in
    (ground (arith, b.mysql, mysql), ground (arith, b.redis, redis))
