-- ===== src/Example/Setup/Answered.antt =====
-- What `init` of example/example.go makes when the servers answer.
use go_cache.Prelude.{
  ◌≡◌, ◌<◌, refl, Option, none, some, [], ◌∷◌, true, false, Bytes, codes, length, ◌==◌, arith,
}
use go_cache.Prelude.Int.{ℤ, pos}
use go_cache.Word.{mul64, to_int64, to_uint64, quot64}
use go_cache.Clock.{whole_seconds}
use go_cache.Outcome.{returns, ok}
use go_cache.Error.{Error}
use go_cache.Lru.{Arc}
use go_cache.Janitor.{NewStore, over_lru, new_in_memory_store}
use go_cache.Store.{CacheStore}
use go_cache.Redis.{PoolConfig, init_read_only_redis_cache}
use go_cache.Redis.Stores.{
  Env, SentinelPool, sentinel, new_sentinel_pool, if_set, in_cluster, init_store, init_redis_cache,
}
use go_cache.Redis.Stores.Tried.{KeptText, make_and_test-kept}
use go_cache.Example.{generic_redis_cache, in_memory_cache}
use go_cache.Example.Setup.{
  Makers, Caches, ready, set_env, set_up, lru_store, redis_test_server, sentinel_test_server,
  redis_master_identifier,
}

-- The write pool: over the sentinel, with the master and the password of the environment.
abbrev pub write_pool : Bytes → Env → SentinelPool
write_pool host env =
    new_sentinel_pool (host ∷ []) (some redis_master_identifier) (if_set env.redis_password)
      (pos 500) (pos 500) (pos 2)

init_store_lem :
    (url_parse : Bytes → Option Bytes) (no_client : Option Error) (env : Env) (host : Bytes)
    → env.redis_sentinel_address ≡ none
    → url_parse sentinel_test_server ≡ some host
    → init_store url_parse
        (in_cluster no_client)
        (set_env env)
        true
        (pos 30)
        none
        (pos 500)
        (pos 500)
        (pos 2)
      ≡ ok (sentinel (write_pool host env) (pos 30000000000))
unfolding init_store mul64 to_int64 to_uint64 set_env
init_store_lem url_parse no_client env host unset parsed =
    rw (unset, init_store) (rw (parsed, init_store) refl)

-- The read-only pool, at the given host.
abbrev pub read_pool : Bytes → PoolConfig
read_pool host = record {
  host = host;
  max_idle = pos 50;
  max_active = pos 50;
  idle_timeout = pos 240000000000;
  conn_timeout = pos 500000000;
  read_write_timeout = pos 50000000;
  store_exp = pos 1800000000000;
}

not_empty : (b : Bytes) → 0 < length b → (length b == 0) ≡ false
not_empty b h = ground arith

read_only_lem :
    (url_parse : Bytes → Option Bytes) (host : Bytes)
    → url_parse redis_test_server ≡ some host
    → 0 < length host
    → init_read_only_redis_cache url_parse redis_test_server (pos 0) (pos 0) (pos 30) (pos 50)
      ≡ ok (read_pool host)
unfolding init_read_only_redis_cache mul64 to_int64 to_uint64
read_only_lem url_parse host parsed h =
    rw (parsed, init_read_only_redis_cache) (rw (not_empty host h) refl)

module _ (arc : Arc) (s : CacheStore) (make : Makers arc s) where
  -- The store of inmemory.go, with its default expiry of 30 nanoseconds.
  abbrev pub lru_made : arc.Lru → NewStore arc
  lru_made l = over_lru arc l (pos 30) (pos 60000000000) true (codes "exampe_inmemory_store")

  lru_store_lem :
      (l : arc.Lru) → arc.new_arc (pos 1000) ≡ some l → lru_store arc s ≡ some (lru_made l)
  unfolding new_in_memory_store
  lru_store_lem l new = rw (new, new_in_memory_store) refl

  abbrev pub caches_made : Bytes → Bytes → Env → arc.Lru → Caches arc s
  caches_made sentinel_host host env l = record {
    generic_redis =
        generic_redis_cache
          (some (make.redis (sentinel (write_pool sentinel_host env) (pos 30000000000))))
          (some (make.read_only (read_pool host)));
    generic_in_memory = in_memory_cache (some (make.persistence (pos 30)));
    lru_expiry = in_memory_cache (some (make.lru_expiry (lru_made l)));
  }

  -- With no sentinel address in the environment, servers whose URLs are parsed, and stores that
  -- keep texts, the service gets ready. Its writes go to a pool over the sentinel at
  -- `localhost:26379`, whose entries last 30 seconds, and its reads from a pool whose entries last
  -- 30 minutes; the store of inmemory.go has an LRU cache of 1000 entries, and a default expiry of
  -- 30 nanoseconds, which is none at all in whole seconds.
  pub set_up_lem :
      (url_parse : Bytes → Option Bytes) (no_client : Option Error) (env : Env)
      (sentinel_host host : Bytes) (w : s.World)
      → ((p : s.Pool) → s.is_store p ≡ true)
      → ((p : s.Pool) (key v : Bytes) (exp : ℤ) (w : s.World) → KeptText s make.redis p key v exp w)
      → env.redis_sentinel_address ≡ none
      → url_parse sentinel_test_server ≡ some sentinel_host
      → url_parse redis_test_server ≡ some host
      → 0 < length host
      → (w1 : s.World) × (l : arc.Lru) × (arc.new_arc (pos 1000) ≡ some l)
        × (set_up arc s url_parse no_client env make w
            ≡ (returns (ready (caches_made sentinel_host host env l)), w1))
        × (whole_seconds (lru_made l).default_exp ≡ pos 0)
  unfolding set_up init_redis_cache whole_seconds quot64
  set_up_lem url_parse no_client env sentinel_host host w stores keeps unset parsed parsed' h =
      let (l, new) = arc.new_arc-positive (pos 1000) (omega arith) in
      let (w1, tried) =
        make_and_test-kept s make.redis stores keeps true
          (sentinel (write_pool sentinel_host env) (pos 30000000000)) w in
      (
        w1,
        l,
        new,
        rw (init_store_lem url_parse no_client env sentinel_host unset parsed, set_up)
            (rw (tried, set_up)
              (rw (read_only_lem url_parse host parsed' h) (rw (lru_store_lem l new) refl))),
        refl,
      )
