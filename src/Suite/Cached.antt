-- ===== src/Suite/Cached.antt =====
-- generic_test_store.go: the tests of a `GenericCache`, as programs over its store.
use go_cache.Prelude.{ℕ, none, some, [], ◌++◌, Bool, false, not, ◌||◌, Bytes, codes, ◌==◌, bytes_eq}
use go_cache.Prelude.Int.{ℤ, pos, ltb_ℤ}
use go_cache.Word.{add64, to_uint64}
use go_cache.Clock.{Instant, to_unix}
use go_cache.Value.{
  Value, nil, string, int, entry, of_entry, string_type, entry_type, other_type, pointer,
}
use go_cache.Store.{CacheStore, M, ◌>>=◌, pure, throw, asserting}
use go_cache.Generic.{Codec, GenericCache, settings, new_generic_cache_entry}
use go_cache.Generic.Writes
use go_cache.Generic.Reads
use go_cache.Generic.Reads.{pointee}
use go_cache.Suite.{Reports, report_if, failed, is_miss, default, seconds, text_after, counted_to}

-- The tests of a `GenericCache`. `now` is what the clock reads when it is asked.
module _ (k : Codec) (s : CacheStore) (sleep : ℕ → M s.World (Unit {0}))
    (cache : GenericCache s.Pool) (now : ℕ → Instant) where
  open s use {World}

  abbrev value_key : Bytes
  value_key = codes "value"

  abbrev empty_entry : Value
  empty_entry = entry nil (pos 0) (pos 0)

  abbrev minutes_3 : ℤ
  minutes_3 = seconds 180

  -- Whether the data of an entry are this text.
  abbrev holds_text : Bytes → Value → Bool
  holds_text t (entry (string u) a x) = bytes_eq u t
  holds_text t _ = false

  -- The error of the first `Get`, into a variable that is not read, is written over.
  unfoldable pub typical_get_set : M World Reports
  typical_get_set = do
    set ← Writes.set s k cache value_key (string (codes "foo")) default (now 0)
    _ ← Reads.get k s cache value_key (pointer string_type) (string [])
    read ← Reads.get k s cache value_key (pointer string_type) (string [])
    let made =
        new_generic_cache_entry (settings cache).default_exp (string (codes "encrypted-data"))
          minutes_3 (now 1)
    stored ← Writes.set s k cache value_key (of_entry made) minutes_3 (now 2)
    after ← Reads.get k s cache value_key (pointer entry_type) empty_entry
    pure (
        report_if (failed set) (codes "Error setting a value: %s")
        ++ (report_if (failed read.error) (codes "Error getting a value: %s")
            ++ (report_if (not (bytes_eq (text_after [] read) (codes "foo")))
                  (codes "Expected to get foo back, got %s")
                ++ (report_if (failed stored) (codes "Error setting a value: %s")
                    ++ (report_if (failed after.error) (codes "Error getting a value: %s")
                        ++ report_if
                            (not (holds_text (codes "encrypted-data") (pointee empty_entry after)))
                            (codes "Expected to get encrypted-data back, got %v"))))))

  -- `store.Cache.(*persistence.RedisStore)`.
  abbrev on_redis : {A : Type 0} → (s.Pool → M World A) → M World A
  on_redis m = elim ((settings cache).cache) [
    | none ↦ throw
    | some p ↦ asserting (s.is_redis p) (m p)
  ]

  -- `uint64(time.Now().Unix() + n)`.
  abbrev in_seconds : ℕ → Instant → ℕ
  in_seconds n t = to_uint64 (add64 (to_unix t) (pos n))

  unfoldable pub incr_redis_atomic_and_expire_at : M World Reports
  incr_redis_atomic_and_expire_at = do
    set ← Writes.set s k cache (codes "int") (int (pos 10)) default (now 0)
    more ← on_redis λ p. s.increment_atomic p (codes "int") 50
    expire ← on_redis λ p. s.expire_at p (codes "int") (in_seconds 30 (now 1))
    checked ← on_redis λ p. s.increment_check_set p (codes "int") 50
    bad ← on_redis λ p. s.increment_check_set p (codes "badkey") 50
    fresh ← on_redis λ p. s.increment_atomic p (codes "newInt") 2
    expire_new ← on_redis λ p. s.expire_at p (codes "newInt") (in_seconds 1 (now 2))
    _ ← sleep 2
    read ← Reads.get k s cache (codes "newInt") (pointer (other_type (codes "uint64"))) nil
    pure (
        report_if (failed set) (codes "Error setting int: %s")
        ++ (report_if (failed more.1) (codes "Error incrementing int: %s")
            ++ (report_if (failed expire) (codes "Error setting expire at for 'int': %s")
                ++ (report_if (not (more.0 == 60)) (codes "Expected 60, was %d")
                    ++ (counted_to 110 (codes "Error incrementing int: %s")
                          (codes "Expected 110, was %d") checked
                        ++ (report_if (not (is_miss bad.1))
                              (codes "Error incrementing badkey.. should have been ErrCacheMiss")
                            ++ (counted_to 2 (codes "Error incrementing int: %s")
                                  (codes "Expected 2, was %d") fresh
                                ++ (report_if (failed expire_new)
                                      (codes "Error setting expire at for 'int': %s")
                                    ++ report_if (not (is_miss read.error))
                                        (codes "Expected cache miss")))))))))

  -- The key is made of the time; a reply in milliseconds is expected.
  unfoldable pub test_redis_get_expires_in : Bytes → M World Reports
  test_redis_get_expires_in key = do
    added ← Writes.add s cache key (int (pos 1)) (seconds 1)
    ttl ← Writes.redis_get_expires_in s cache key
    pure (
        report_if (failed added) (codes "Unexpected error adding to empty cache: %s")
        ++ (report_if (failed ttl.1) (codes "unexpected error == %s")
            ++ report_if (ltb_ℤ ttl.0 (pos 500) || ltb_ℤ (pos 1000) ttl.0)
                (codes "unexpected value for ttl == %d")))
