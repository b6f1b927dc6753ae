-- ===== src/Redis/Stores.antt =====
-- redispool.go: which store `RedisConnectionInfo.New` and `InitRedisCache` make, and how they try
-- it. `url.Parse`, the environment, the look for a k8s cluster and the making of a store are
-- parameters.
pub mod Tried
use go_cache.Prelude.{
  Option, none, some, List, [], ◌∷◌, Bool, true, false, not, Bytes, codes, length, ◌==◌,
  if◌then◌else◌,
}
use go_cache.Prelude.Int.{ℤ, pos}
use go_cache.Word.{mul64}
use go_cache.Clock.{second}
use go_cache.Outcome.{Result, ok, err}
use go_cache.Error.{Error}
use go_cache.Value.{Value, string, string_type, pointer}
use go_cache.InMemory.{Got}
use go_cache.Store.{CacheStore, M, ◌>>=◌, pure, asserting}
use go_cache.Redis.{RedisError, cannot_parse_url, empty_host, of_milliseconds}

-- `inCluster`: whether `k8s.NewInClusterClient` gives a client.
abbrev pub in_cluster : Option Error → Bool
in_cluster (some e) = false
in_cluster none = true

pub record RedisConnectionInfo : Type 0 where
  pub master_identifier : Bytes
  pub password : Bytes
  pub sentinel_url : Bytes
  pub redis_url : Bytes
  pub use_sentinel : Bool
  pub def_exp_seconds : ℤ
  pub connection_timeout_milliseconds : ℤ
  pub read_write_timeout_milliseconds : ℤ
  pub select_database : ℤ

-- `NewSentinelPool`: what the pool is made of, beside its callbacks.
pub record SentinelPool : Type 0 where
  pub addrs : List Bytes
  pub master_name : Bytes
  pub password : Option Bytes
  pub conn_timeout : ℤ
  pub read_write_timeout : ℤ
  pub select_database : ℤ
  pub max_idle : ℤ
  pub max_active : ℤ
  pub idle_timeout : ℤ

abbrev pub master_or_default : Option Bytes → Bytes
master_or_default none = codes "mymaster"
master_or_default (some m) = m

unfoldable pub new_sentinel_pool :
    List Bytes → Option Bytes → Option Bytes → ℤ → ℤ → ℤ → SentinelPool
new_sentinel_pool addrs master password conn_ms read_write_ms db = record {
  addrs = addrs;
  master_name = master_or_default master;
  password = password;
  conn_timeout = of_milliseconds conn_ms;
  read_write_timeout = of_milliseconds read_write_ms;
  select_database = db;
  max_idle = pos 3;
  max_active = pos 64;
  idle_timeout = mul64 (pos 240) (pos second);
}

-- The store that a configuration leads to, with its default expiry: one at an address, with a
-- password and, if it is asked for, a database, or one over a sentinel pool.
pub data StoreAt : Type 0 where
  direct : Bytes → Bytes → Option ℤ → ℤ → StoreAt
  sentinel : SentinelPool → ℤ → StoreAt

-- The host of a URL, or a default if there is no URL.
abbrev pub parsed_host : Option Bytes → Result RedisError Bytes
parsed_host none = err cannot_parse_url
parsed_host (some host) = if length host == 0 then err empty_host else ok host

abbrev pub host_or : (Bytes → Option Bytes) → Bytes → Bytes → Result RedisError Bytes
host_or url_parse url default_host =
    if length url == 0 then ok default_host else parsed_host (url_parse url)

-- `if err != nil { return nil, err }`.
abbrev pub on_ok :
    {A B : Type 0} → Result RedisError A → (A → Result RedisError B) → Result RedisError B
on_ok (ok a) f = f a
on_ok (err e) f = err e

abbrev pub if_set : Bytes → Option Bytes
if_set b = if length b == 0 then none else some b

-- `New`, up to the store that is made. The master identifier that an empty one is replaced by is
-- also written into the receiver, where only another `New` reads it, to the same effect.
unfoldable pub new_store :
    (Bytes → Option Bytes) → Bool → RedisConnectionInfo → Result RedisError StoreAt
unfolding new_sentinel_pool
new_store url_parse in_cluster info =
    let exp = mul64 info.def_exp_seconds (pos second) in
    on_ok (host_or url_parse info.sentinel_url (codes "localhost:26379")) λ sentinel_host.
      if info.use_sentinel
      then ok (
          sentinel
            (new_sentinel_pool (sentinel_host ∷ [])
              (some (master_or_default (if_set info.master_identifier))) (if_set info.password)
              info.connection_timeout_milliseconds info.read_write_timeout_milliseconds
              info.select_database)
            exp)
      else (on_ok (host_or url_parse info.redis_url (codes "redis:6379")) λ store_dns. ok (
          direct (if in_cluster then store_dns else codes "localhost:6379") info.password none exp))

-- What `InitRedisCache` reads of the environment. Only the last is told apart from an empty one.
pub record Env : Type 0 where
  pub redis_master_identifier : Bytes
  pub redis_password : Bytes
  pub redis_sentinel_address : Option Bytes

-- The host of the sentinel address; an empty one is not refused.
abbrev pub sentinel_host_of : (Bytes → Option Bytes) → Option Bytes → Result RedisError Bytes
sentinel_host_of url_parse none = ok (codes "localhost:26379")
sentinel_host_of url_parse (some u) = elim (url_parse u) [
  | none ↦ err cannot_parse_url
  | some host ↦ ok host
]

abbrev pub password_or : Option Bytes → Bytes → Option Bytes
password_or none from_env = if_set from_env
password_or (some p) from_env = some p

-- `string(redisPassword)`.
abbrev pub text_of : Option Bytes → Bytes
text_of none = []
text_of (some p) = p

-- `InitRedisCache`, up to the store that is made.
unfoldable pub init_store :
    (Bytes → Option Bytes)
    → Bool
    → Env
    → Bool
    → ℤ
    → Option Bytes
    → ℤ
    → ℤ
    → ℤ
    → Result RedisError StoreAt
unfolding new_sentinel_pool
init_store url_parse in_cluster env use_sentinel exp_seconds password conn_ms read_write_ms db =
    let exp = mul64 exp_seconds (pos second) in
    let redis_password = password_or password env.redis_password in
    on_ok (sentinel_host_of url_parse env.redis_sentinel_address) λ redis_host. ok (
      if use_sentinel
      then sentinel
          (new_sentinel_pool (redis_host ∷ [])
            (some (master_or_default (if_set env.redis_master_identifier))) redis_password conn_ms
            read_write_ms db)
          exp
      else direct (if in_cluster then codes "redis:6379" else codes "localhost:6379")
          (text_of redis_password) (some db) exp)

-- What is returned: a cache, or nil, and an error, or nil.
pub data InitError : Type 0 where
  config : RedisError → InitError
  store : Error → InitError

pub record Made (Pool : Type 0) : Type 0 where
  pub cache : Option Pool
  pub failure : Option InitError

module _ (s : CacheStore) (make : StoreAt → s.Pool) where
  open s use {World, Pool}

  abbrev pub read_text : Got → Result Error Bytes
  read_text g = elim (g.error) [
    | some e ↦ err e
    | none ↦ elim (g.written) [ some (string v) ↦ ok v | _ ↦ ok [] ]
  ]

  unfoldable pub test_cache : Pool → Bytes → Bytes → ℤ → M World (Result Error Bytes)
  test_cache p k v exp = asserting (s.is_store p) (do
    stored ← s.set p k (string v) exp
    elim stored [
      | some e ↦ pure (err e)
      | none ↦ do g ← s.get p k (pointer string_type); pure (read_text g)
    ])

  -- A test that fails: without sentinel no cache is returned, with it the cache is.
  abbrev pub after_test : Option Pool → Pool → Result Error Bytes → Made Pool
  after_test on_failure p (ok v) = record { cache = some p; failure = none }
  after_test on_failure p (err e) = record { cache = on_failure; failure = some (store e) }

  abbrev pub run_test : Option Pool → Pool → ℤ → M World (Made Pool)
  run_test on_failure p exp = do
    r ← test_cache p (codes "testing") (codes "1,2,3..") exp
    pure (after_test on_failure p r)

  -- The store is made, and tried if that is asked for.
  unfoldable pub make_and_test : Bool → StoreAt → M World (Made Pool)
  unfolding test_cache
  make_and_test false at = pure (record { cache = some (make at); failure = none })
  make_and_test true (direct host password db exp) =
      run_test none (make (direct host password db exp)) exp
  make_and_test true (sentinel pool exp) =
      let p = make (sentinel pool exp) in
      asserting (s.is_store p) (do
        stored ← s.set p (codes "test") (string (codes "this")) exp
        elim stored [
          | some e ↦ pure (record { cache = none; failure = some (store e) })
          | none ↦ run_test (some p) p exp
        ])

  abbrev pub made_of : Bool → Result RedisError StoreAt → M World (Made Pool)
  made_of tested (err e) = pure (record { cache = none; failure = some (config e) })
  made_of tested (ok at) = make_and_test tested at

  unfoldable pub new :
      (Bytes → Option Bytes) → Bool → RedisConnectionInfo → Bool → M World (Made Pool)
  unfolding new_store make_and_test
  new url_parse in_cluster info tested = made_of tested (new_store url_parse in_cluster info)

  unfoldable pub init_redis_cache :
      (Bytes → Option Bytes)
      → Bool
      → Env
      → Bool
      → ℤ
      → Option Bytes
      → ℤ
      → ℤ
      → ℤ
      → M World (Made Pool)
  unfolding init_store make_and_test
  init_redis_cache url_parse in_cluster env use_sentinel exp_seconds password conn_ms rw_ms db =
      made_of true
        (init_store url_parse in_cluster env use_sentinel exp_seconds password conn_ms rw_ms db)
