-- ===== src/Redis/Stores/Tried.antt =====
-- What the test of a new store says of it (redispool.go, `testCache` and its callers).
use go_cache.Prelude.{◌≡◌, refl, Option, none, some, Bool, true, false, Bytes, codes}
use go_cache.Prelude.Int.{ℤ}
use go_cache.Outcome.{ok, err, returns}
use go_cache.Error.{Error}
use go_cache.Value.{string, string_type, pointer}
use go_cache.InMemory.{got, failed}
use go_cache.Store.{CacheStore}
use go_cache.Redis.Stores.{
  RedisConnectionInfo, StoreAt, direct, sentinel, Made, test_cache, make_and_test, new, new_store,
  init_store, init_redis_cache, Env, store,
}

module _ (s : CacheStore) (make : StoreAt → s.Pool) where
  open s use {World, Pool}

  -- A store that was handed a text and asked for it gives it back.
  pub record KeptText (p : Pool) (key v : Bytes) (exp : ℤ) (w : World) : Type 0 where
    pub after_set : World
    pub after_get : World
    pub is_set : s.set p key (string v) exp w ≡ (returns none, after_set)
    pub is_got : s.get p key (pointer string_type) after_set ≡ (returns (got (string v)), after_get)

  abbrev pub made : StoreAt → Made Pool
  made at = record { cache = some (make at); failure = none }

  -- A store that refuses every text.
  abbrev pub RefusesTexts : Pool → Error → Type 0
  RefusesTexts p e =
      (key v : Bytes) (exp : ℤ) (w : World)
      → (w1 : World) × (s.set p key (string v) exp w ≡ (returns (some e), w1))

  -- A store that takes every text and then fails to give it.
  pub record Loses (p : Pool) (e : Error) (key v : Bytes) (exp : ℤ) (w : World) : Type 0 where
    pub after_set : World
    pub after_get : World
    pub is_set : s.set p key (string v) exp w ≡ (returns none, after_set)
    pub is_lost : s.get p key (pointer string_type) after_set ≡ (returns (failed e), after_get)

  -- The cache that is returned beside the error of a `Get`: with sentinel the one that was tried.
  abbrev pub beside_error : StoreAt → Option Pool
  beside_error (direct host password db exp) = none
  beside_error (sentinel pool exp) = some (make (sentinel pool exp))

  module _ (stores : (p : Pool) → s.is_store p ≡ true) where
    test_cache-kept :
        (p : Pool) (key v : Bytes) (exp : ℤ) (w : World)
        → (k : KeptText p key v exp w)
        → test_cache s make p key v exp w ≡ (returns (ok v), k.after_get)
    unfolding test_cache
    test_cache-kept p key v exp w k =
        rw (stores p, test_cache) (rw (k.is_set, test_cache) (rw (k.is_got, test_cache) refl))

    module _
        (keeps : (p : Pool) (key v : Bytes) (exp : ℤ) (w : World) → KeptText p key v exp w) where
      pub make_and_test-kept :
          (tested : Bool) (at : StoreAt) (w : World)
          → (w1 : World) × (make_and_test s make tested at w ≡ (returns (made at), w1))
      unfolding make_and_test
      make_and_test-kept false at w = (w, refl)
      make_and_test-kept true (direct host password db exp) w =
          let p = make (direct host password db exp) in
          let k = keeps p (codes "testing") (codes "1,2,3..") exp w in
          (k.after_get, rw (test_cache-kept p _ _ exp w k) refl)
      make_and_test-kept true (sentinel pool exp) w =
          let p = make (sentinel pool exp) in
          let first = keeps p (codes "test") (codes "this") exp w in
          let k = keeps p (codes "testing") (codes "1,2,3..") exp first.after_set in
          (
            k.after_get,
            rw (stores p, make_and_test)
                (rw (first.is_set, make_and_test)
                  (rw (test_cache-kept p _ _ exp first.after_set k) refl)),
          )

      -- Over stores that keep texts, `New` and `InitRedisCache` return the store that they choose,
      -- and no error.
      pub stores_made :
          (url_parse : Bytes → Option Bytes) (in_cluster tested : Bool) (info : RedisConnectionInfo)
          (env : Env) (conn_ms rw_ms exp_seconds db : ℤ) (password : Option Bytes)
          (use_sentinel : Bool) (w : World) {at1 at2 : StoreAt}
          → new_store url_parse in_cluster info ≡ ok at1
          → init_store url_parse in_cluster env use_sentinel exp_seconds password conn_ms rw_ms db
            ≡ ok at2
          → ((w1 : World) × (new s make url_parse in_cluster info tested w
                ≡ (returns (made at1), w1)))
            × ((w1 : World) × (init_redis_cache s make url_parse in_cluster env use_sentinel
                    exp_seconds password conn_ms rw_ms db w
                  ≡ (returns (made at2), w1)))
      unfolding new init_redis_cache
      stores_made url_parse in_cluster tested info env conn_ms rw_ms exp_seconds db password
            use_sentinel w {at1} {at2} p q =
          let a = make_and_test-kept tested at1 w in
          let b = make_and_test-kept true at2 w in
          ((a.0, rw (p, new) a.1), (b.0, rw (q, init_redis_cache) b.1))

    -- Over stores that refuse every text, a test leaves the error, and no cache.
    stores_refused :
        (at : StoreAt) (e : Error) (w : World)
        → RefusesTexts (make at) e
        → (w1 : World) × (make_and_test s make true at w
            ≡ (returns (record { cache = none; failure = some (store e) }), w1))
    unfolding make_and_test test_cache
    stores_refused (direct host password db exp) e w h =
        let (w1, x) = h (codes "testing") (codes "1,2,3..") exp w in
        (w1, rw (stores (make (direct host password db exp)), test_cache) (rw (x, test_cache) refl))
    stores_refused (sentinel pool exp) e w h =
        let (w1, x) = h (codes "test") (codes "this") exp w in
        (w1, rw (stores (make (sentinel pool exp)), make_and_test) (rw (x, make_and_test) refl))

    test_cache-lost :
        (p : Pool) (e : Error) (key v : Bytes) (exp : ℤ) (w : World)
        → (k : Loses p e key v exp w)
        → test_cache s make p key v exp w ≡ (returns (err e), k.after_get)
    unfolding test_cache
    test_cache-lost p e key v exp w k =
        rw (stores p, test_cache) (rw (k.is_set, test_cache) (rw (k.is_lost, test_cache) refl))

    module _ (e : Error)
        (loses : (p : Pool) (key v : Bytes) (exp : ℤ) (w : World) → Loses p e key v exp w) where
      make_and_test-lost :
          (at : StoreAt) (w : World)
          → (w1 : World) × (make_and_test s make true at w
              ≡ (returns (record { cache = beside_error at; failure = some (store e) }), w1))
      unfolding make_and_test
      make_and_test-lost (direct host password db exp) w =
          let p = make (direct host password db exp) in
          let k = loses p (codes "testing") (codes "1,2,3..") exp w in
          (k.after_get, rw (test_cache-lost p e _ _ exp w k) refl)
      make_and_test-lost (sentinel pool exp) w =
          let p = make (sentinel pool exp) in
          let first = loses p (codes "test") (codes "this") exp w in
          let k = loses p (codes "testing") (codes "1,2,3..") exp first.after_set in
          (
            k.after_get,
            rw (stores p, make_and_test)
                (rw (first.is_set, make_and_test)
                  (rw (test_cache-lost p e _ _ exp first.after_set k) refl)),
          )

      -- Over stores that take texts but fail to give them, the test of the store that `New` or
      -- `InitRedisCache` has made leaves the error; they return it, beside no cache without
      -- sentinel, and beside the cache with it.
      pub stores_lost :
          (url_parse : Bytes → Option Bytes) (in_cluster : Bool) (info : RedisConnectionInfo)
          (env : Env) (conn_ms rw_ms exp_seconds db : ℤ) (password : Option Bytes)
          (use_sentinel : Bool) (w : World) {at1 at2 : StoreAt}
          → new_store url_parse in_cluster info ≡ ok at1
          → init_store url_parse in_cluster env use_sentinel exp_seconds password conn_ms rw_ms db
            ≡ ok at2
          → ((w1 : World) × (new s make url_parse in_cluster info true w
                ≡ (returns (record { cache = beside_error at1; failure = some (store e) }), w1)))
            × ((w1 : World) × (init_redis_cache s make url_parse in_cluster env use_sentinel
                    exp_seconds password conn_ms rw_ms db w
                  ≡ (returns (record { cache = beside_error at2; failure = some (store e) }), w1)))
      unfolding new init_redis_cache
      stores_lost url_parse in_cluster info env conn_ms rw_ms exp_seconds db password use_sentinel w
            {at1} {at2} p q =
          let a = make_and_test-lost at1 w in
          let b = make_and_test-lost at2 w in
          ((a.0, rw (p, new) a.1), (b.0, rw (q, init_redis_cache) b.1))
