-- ===== src/Example.antt =====
-- example/example.go: the handlers of the service that answer with an entry of a cache. The three
-- of them do the same with a cache and a name of their own. The entry that `getNewEntry` gives is a
-- parameter, as are the clocks that the handler and its goroutine read.
pub mod Twice
pub mod Setup
pub mod Routes
use go_cache.Prelude.{ℕ, Option, none, some, Bool, true, false, Bytes, codes}
use go_cache.Prelude.Int.{ℤ, pos}
use go_cache.Clock.{Instant, second}
use go_cache.Error.{Error}
use go_cache.Value.{Value, nil, entry, of_entry, entry_type, pointer}
use go_cache.InMemory.{Got}
use go_cache.Store.{CacheStore, M, ◌>>=◌, pure}
use go_cache.Generic.{
  Codec, GenericCache, settings, new_generic_cache_entry, new_cache_with_pool,
  new_cache_with_multi_pools, writable, l1, l2,
}
use go_cache.Generic.Writes
use go_cache.Generic.Reads
use go_cache.Generic.Reads.{pointee}
use go_cache.Keys.{get_key}

abbrev pub shared_secret : Bytes
shared_secret = codes "secret-must-be-min-16chars"

abbrev pub def_exp_seconds : ℕ
def_exp_seconds = 30

-- `init`, the caches over their pools.
abbrev pub generic_redis_cache : {Pool : Type 0} → Option Pool → Option Pool → GenericCache Pool
generic_redis_cache write_pool read_pool =
    new_cache_with_multi_pools write_pool read_pool l2 shared_secret (pos def_exp_seconds)
      (some (codes "test")) true

abbrev pub in_memory_cache : {Pool : Type 0} → Option Pool → GenericCache Pool
in_memory_cache store =
    new_cache_with_pool store writable l1 shared_secret (pos def_exp_seconds) (some (codes "mem"))
      false

-- What a handler sends, and what it has a goroutine set, if it does.
pub record Reply : Type 0 where
  pub body : Value
  pub later : Option Value

-- `3 * time.Minute`.
abbrev pub three_minutes : ℕ
three_minutes = 180000000000

abbrev pub reply : Value → Option Value → Reply
reply body later = record { body = body; later = later }

module _ (k : Codec) (s : CacheStore) (name : Bytes) (new_data : Value) where
  open s use {World, Pool}

  abbrev pub new_value : GenericCache Pool → Instant → Value
  new_value c now =
      of_entry (new_generic_cache_entry (settings c).default_exp new_data (pos three_minutes) now)

  -- `entry := goCache.GenericCacheEntry{}`, and what `Get` has written into it.
  abbrev pub answer : GenericCache Pool → Instant → Got → Reply
  answer c now g = elim (g.error) [
    | none ↦ reply (pointee (entry nil (pos 0) (pos 0)) g) none
    | some e ↦ reply (new_value c now) (some (new_value c now))
  ]

  unfoldable pub entry_handler : GenericCache Pool → Instant → M World Reply
  entry_handler c now = do
    g ←
        Reads.get k s c (get_key k (settings c) name) (pointer entry_type)
          (entry nil (pos 0) (pos 0))
    pure (answer c now g)

  -- The goroutine; its error is only logged.
  unfoldable pub set_later : GenericCache Pool → Value → Instant → M World (Option Error)
  set_later c e now = Writes.set s k c (get_key k (settings c) name) e (pos three_minutes) now

module _ (k : Codec) (s : CacheStore) (new_data : Value) where
  abbrev pub cached_encrypted_entry : GenericCache s.Pool → Instant → M s.World Reply
  cached_encrypted_entry = entry_handler k s (codes "cached-encrypted-entry") new_data

  abbrev pub cached_in_memory_not_encrypted_entry : GenericCache s.Pool → Instant → M s.World Reply
  cached_in_memory_not_encrypted_entry =
      entry_handler k s (codes "cached-in-memory-not-encrypted-entry") new_data

  abbrev pub cached_in_memory_lru_with_expiry : GenericCache s.Pool → Instant → M s.World Reply
  cached_in_memory_lru_with_expiry =
      entry_handler k s (codes "cached-in-memory-lru-with-expiry") new_data
