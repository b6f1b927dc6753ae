-- ===== src/Example/Setup.antt =====
-- example/example.go, `init`: the stores and caches of the service. The stores that the persistence
-- package makes, and the error of the k8s client, are parameters.
pub mod Answered
use go_cache.Prelude.{
  ℕ, ◌≡◌, refl, Option, none, some, List, [], ◌∷◌, Bool, true, false, Bytes, codes, length, ◌==◌,
  if◌then◌else◌, arith,
}
use go_cache.Prelude.Int.{ℤ, pos}
use go_cache.Word.{mul64, to_int64, to_uint64}
use go_cache.Clock.{second, whole_seconds}
use go_cache.Outcome.{Outcome, returns, panics, Result, ok, err}
use go_cache.Error.{Error}
use go_cache.Lru.{Arc}
use go_cache.Janitor.{NewStore, new_in_memory_store}
use go_cache.Store.{CacheStore, M, ◌>>=◌, pure, throw}
use go_cache.Generic.{GenericCache, settings}
use go_cache.Redis.{RedisError, PoolConfig, init_read_only_redis_cache}
use go_cache.Redis.Stores.{
  Env, StoreAt, sentinel, new_sentinel_pool, in_cluster, init_store, init_redis_cache, Made,
}
use go_cache.Example.{generic_redis_cache, in_memory_cache, def_exp_seconds}

abbrev pub redis_test_server : Bytes
redis_test_server = codes "redis://localhost:6379"

abbrev pub sentinel_test_server : Bytes
sentinel_test_server = codes "redis://localhost:26379"

abbrev pub redis_master_identifier : Bytes
redis_master_identifier = codes "mymaster"

abbrev pub def_timeout_milliseconds : ℕ
def_timeout_milliseconds = 500

abbrev pub max_connections_allowed : ℕ
max_connections_allowed = 50

abbrev pub max_entries : ℕ
max_entries = 1000

-- `len(os.Getenv(…)) == 0`.
abbrev is_unset : Option Bytes → Bool
is_unset none = true
is_unset (some v) = length v == 0

-- What `init` sets in the environment before it makes the write pool.
unfoldable pub set_env : Env → Env
set_env env = record env {
  redis_sentinel_address =
      if is_unset env.redis_sentinel_address
      then some sentinel_test_server
      else env.redis_sentinel_address;
  redis_master_identifier = redis_master_identifier;
}

module _ (arc : Arc) (s : CacheStore) where
  open s use {World, Pool}

  -- How the pools are made: of a Redis store, of a read-only one, of the in-memory store of the
  -- persistence package with its default expiry, and of the store of inmemory.go.
  pub record Makers : Type 0 where
    pub redis : StoreAt → Pool
    pub read_only : PoolConfig → Pool
    pub persistence : ℤ → Pool
    pub lru_expiry : NewStore arc → Pool

  -- The variables of the package.
  pub record Caches : Type 0 where
    pub generic_redis : GenericCache Pool
    pub generic_in_memory : GenericCache Pool
    pub lru_expiry : GenericCache Pool

  -- The service is ready, or it has exited by `Fatalf`.
  pub data Ready : Type 0 where
    exited : Ready
    ready : Caches → Ready

  -- The in-memory caches; `init` panics if the store of inmemory.go is refused.
  abbrev pub in_memory_caches : Makers → GenericCache Pool → Option (NewStore arc) → M World Ready
  in_memory_caches make redis none = throw
  in_memory_caches make redis (some new) = pure (
      ready (record {
        generic_redis = redis;
        generic_in_memory = in_memory_cache (some (make.persistence (pos def_exp_seconds)));
        lru_expiry = in_memory_cache (some (make.lru_expiry new));
      }))

  abbrev pub lru_store : Option (NewStore arc)
  lru_store =
      new_in_memory_store arc (pos max_entries) (pos def_exp_seconds) (pos 60000000000) true
        (codes "exampe_inmemory_store")

  -- The read-only pool, and the caches.
  abbrev pub with_read_pool : Makers → Option Pool → Result RedisError PoolConfig → M World Ready
  with_read_pool make write (err e) = pure exited
  with_read_pool make write (ok config) =
      in_memory_caches make (generic_redis_cache write (some (make.read_only config))) lru_store

  abbrev pub with_write_pool : (Bytes → Option Bytes) → Makers → Made Pool → M World Ready
  with_write_pool url_parse make made = elim (made.failure) [
    | some e ↦ pure exited
    | none ↦ with_read_pool make made.cache (
        init_read_only_redis_cache url_parse redis_test_server (pos 0) (pos 0) (pos def_exp_seconds)
          (pos max_connections_allowed))
  ]

  unfoldable pub set_up : (Bytes → Option Bytes) → Option Error → Env → Makers → M World Ready
  unfolding init_redis_cache init_read_only_redis_cache new_in_memory_store set_env
  set_up url_parse no_client env make = do
    made ←
        init_redis_cache s make.redis url_parse (in_cluster no_client) (set_env env) true
          (pos def_exp_seconds) none (pos def_timeout_milliseconds) (pos def_timeout_milliseconds)
          (pos 2)
    with_write_pool url_parse make made
