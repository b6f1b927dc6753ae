-- ===== src/Tests/Redis.antt =====
-- redispool.go, tried: a server that refuses one password, and a URL with a host.
use go_cache.Prelude.{
  [], ◌∷◌, true, false, ◌≡◌, ◌<◌, refl, Option, none, some, codes, bytes_eq, length, if◌then◌else◌,
  arith,
}
use go_cache.Prelude.Int.{pos, negsuc, ◌<ℤ◌}
use go_cache.Word.{mul64, to_int64, to_uint64}
use go_cache.Outcome.{ok, returns}
use go_cache.Value.{Value, string}
use go_cache.Redis.Stores.{
  store, RedisConnectionInfo, Env, StoreAt, direct, sentinel, new_store, init_store, new,
  init_redis_cache,
}
use go_cache.Redis.Stores.Tried.{beside_error, stores_made, stores_lost}
use go_cache.Store.{CacheStore}
use go_cache.Error.{cache_miss}
use go_cache.InMemory.{failed}
use go_cache.Tests.Data.{one}
use go_cache.Redis.{
  RedisError, refused, Command, auth, Server, PoolConfig, sentinel_commands, sentinel_dial,
  read_only_commands, read_only_dial, init_read_only_redis_cache,
}
use go_cache.Redis.Dial.{IsTidy, dials-IsTidy}
use go_cache.Redis.Times.{init_read_only_redis_cache_times}

abbrev reply_to : Command → Option RedisError
unfolding bytes_eq
reply_to (auth p) = if bytes_eq p (codes "open") then none else some (refused (codes "WRONGPASS"))
reply_to _ = none

abbrev server : Server
server = record { master_addr = ok (codes "10.0.0.1"); dial = λ addr. none; reply = reply_to }

dials-IsTidy_example :
    IsTidy
      (sentinel_commands (some (codes "shut")) (pos 2))
      (sentinel_dial server (some (codes "shut")) (pos 2))
    × IsTidy
        (read_only_commands (codes "open") (pos 2))
        (read_only_dial server (codes "10.0.0.2") (codes "open") (pos 2))
dials-IsTidy_example =
    dials-IsTidy server (some (codes "shut")) (codes "10.0.0.2") (codes "open") (pos 2)

abbrev config : PoolConfig
config = record {
  host = codes "redis:6379";
  max_idle = pos 10;
  max_active = pos 10;
  idle_timeout = pos 240000000000;
  conn_timeout = pos 500000000;
  read_write_timeout = pos 20000000;
  store_exp = pos 300000000000;
}

configured :
    init_read_only_redis_cache
      (λ u. some u)
      (codes "redis:6379")
      (negsuc 0)
      (pos 20)
      (pos 5)
      (pos 10)
    ≡ ok config
unfolding init_read_only_redis_cache mul64 to_int64 to_uint64
configured = refl

init_read_only_redis_cache_times_example :
    (pos 0 <ℤ pos 500000000)
    × (pos 0 <ℤ pos 20000000)
    × (config.max_active ≡ pos 10)
    × (config.max_idle ≡ pos 10)
    × (0 < length config.host)
init_read_only_redis_cache_times_example =
    init_read_only_redis_cache_times (λ u. some u) (codes "redis:6379") (negsuc 0) (pos 20) (pos 5)
      (pos 10) {config = config} (ground arith) (ground arith) configured

abbrev info : RedisConnectionInfo
info = record {
  master_identifier = [];
  password = codes "open";
  sentinel_url = [];
  redis_url = codes "redis:6379";
  use_sentinel = false;
  def_exp_seconds = pos 60;
  connection_timeout_milliseconds = pos 100;
  read_write_timeout_milliseconds = pos 100;
  select_database = pos 0;
}

abbrev env : Env
env = record {
  redis_master_identifier = codes "master";
  redis_password = [];
  redis_sentinel_address = some (codes "sentinel:26379");
}

abbrev chosen : StoreAt
chosen = direct (codes "redis:6379") (codes "open") none (pos 60000000000)

abbrev chosen_from_env : StoreAt
chosen_from_env =
    sentinel
      (record {
        addrs = codes "sentinel:26379" ∷ [];
        master_name = codes "master";
        password = none;
        conn_timeout = pos 100000000;
        read_write_timeout = pos 50000000;
        select_database = pos 1;
        max_idle = pos 3;
        max_active = pos 64;
        idle_timeout = pos 240000000000;
      })
      (pos 30000000000)

chosen_lem : new_store (λ u. some u) true info ≡ ok chosen
unfolding new_store mul64 to_int64 to_uint64
chosen_lem = refl

chosen_from_env_lem :
    init_store (λ u. some u) true env true (pos 30) none (pos 100) (pos 50) (pos 1)
    ≡ ok chosen_from_env
unfolding init_store mul64 to_int64 to_uint64
chosen_from_env_lem = refl

stores_made_example :
    ((w1 : Option Value) × (new one (λ at. tt) (λ u. some u) true info true none
        ≡ (returns (record { cache = some tt; failure = none }), w1)))
    × ((w1 : Option Value) × (init_redis_cache one
            (λ at. tt)
            (λ u. some u)
            true
            env
            true
            (pos 30)
            none
            (pos 100)
            (pos 50)
            (pos 1)
            none
          ≡ (returns (record { cache = some tt; failure = none }), w1)))
stores_made_example =
    stores_made one (λ at. tt) (λ p. refl)
      (λ p key v exp w. record {
        after_set = some (string v);
        after_get = some (string v);
        is_set = refl;
        is_got = refl;
      })
      (λ u. some u) true true info env (pos 100) (pos 50) (pos 30) (pos 1) none true none chosen_lem
      chosen_from_env_lem

-- A store that forgets what it was handed.
abbrev forgetful : CacheStore
forgetful = record one { get = λ p key t w. (returns (failed cache_miss), w) }

stores_lost_example :
    ((w1 : Option Value) × (new forgetful (λ at. tt) (λ u. some u) true info true none ≡ (
      returns (record {
        cache = beside_error forgetful (λ at. tt) chosen;
        failure = some (store cache_miss);
      }),
      w1,
    )))
    × ((w1 : Option Value) × (init_redis_cache forgetful
            (λ at. tt)
            (λ u. some u)
            true
            env
            true
            (pos 30)
            none
            (pos 100)
            (pos 50)
            (pos 1)
            none
          ≡ (returns (record { cache = some tt; failure = some (store cache_miss) }), w1)))
stores_lost_example =
    stores_lost forgetful (λ at. tt) (λ p. refl) cache_miss
      (λ p key v exp w. record {
        after_set = some (string v);
        after_get = some (string v);
        is_set = refl;
        is_lost = refl;
      })
      (λ u. some u) true info env (pos 100) (pos 50) (pos 30) (pos 1) none true none chosen_lem
      chosen_from_env_lem
