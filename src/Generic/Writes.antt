-- ===== src/Generic/Writes.antt =====
-- generic.go: the methods of `GenericCache` that write. They go to `Cache`, whatever `ReadCache`.
use go_cache.Prelude.{ℕ, Option, none, some, Bool, Bytes, if◌then◌else◌}
use go_cache.Prelude.Int.{ℤ, pos}
use go_cache.Word.{mul64, sub64}
use go_cache.Clock.{Instant, to_unix, second}
use go_cache.Outcome.{Result, ok, err}
use go_cache.Error.{Error, no_cache, cache_miss, cannot_encode, is_cache_miss}
use go_cache.Value.{Value, bytes, GenericCacheEntry, of_entry, entry}
use go_cache.Store.{CacheStore, M, ◌>>=◌, pure, throw, lift, asserting}
use go_cache.InMemory.{Count}
use go_cache.Generic.{
  Codec, Settings, GenericCache, settings, exp_or_default, new_generic_cache_entry, encrypt_entry,
}

module _ (s : CacheStore) where
  open s use {World, Pool}

  -- `if c.Cache == nil { … return err }` and, where a store is called, the type assertion.
  abbrev pub with_store :
      {A : Type 0} → A → (Pool → Bool) → Option Pool → (Pool → M World A) → M World A
  with_store failed is none m = pure failed
  with_store failed is (some p) m = asserting (is p) (m p)

  -- `AddExistingEntry` does not look whether there is a cache.
  unfoldable pub add_existing_entry :
      GenericCache Pool → Bytes → GenericCacheEntry → ℤ → Instant → M World (Option Error)
  add_existing_entry c key e expires_at now = elim ((settings c).cache) [
    | none ↦ throw
    | some p ↦
        asserting (s.is_store p)
          (s.set p key (of_entry e) (mul64 (sub64 expires_at (to_unix now)) (pos second)))
  ]

  unfoldable pub add : GenericCache Pool → Bytes → Value → ℤ → M World (Option Error)
  add c key v exp =
      with_store (some no_cache) s.is_store ((settings c).cache)
        λ p. s.add p key v (exp_or_default exp (settings c).default_exp)

  -- A miss is told by its text, and returned as the one error value of a miss.
  abbrev pub as_miss : Option Error → Option Error
  as_miss none = none
  as_miss (some e) = some (if is_cache_miss e then cache_miss else e)

  unfoldable pub delete : GenericCache Pool → Bytes → M World (Option Error)
  delete c key =
      with_store (some no_cache) s.is_store ((settings c).cache)
        λ p. do e ← s.delete p key; pure (as_miss e)

  unfoldable pub replace : GenericCache Pool → Bytes → Value → ℤ → M World (Option Error)
  replace c key v exp =
      with_store (some no_cache) s.is_store ((settings c).cache)
        λ p. s.replace p key v (exp_or_default exp (settings c).default_exp)

  -- `Set` with `EncryptData`: only an entry is encrypted, by its data, and gets new times.
  abbrev pub seal_bytes : Settings Pool → ℤ → Instant → Result Error Bytes → Result Error Value
  seal_bytes c exp now (ok b) =
      ok (of_entry (new_generic_cache_entry c.default_exp (bytes b) exp now))
  seal_bytes c exp now (err e) = err e

  abbrev pub seal_payload :
      Codec → Settings Pool → ℤ → Instant → Option Bytes → M World (Result Error Value)
  seal_payload k c exp now none = pure (err cannot_encode)
  seal_payload k c exp now (some b) = do
    encrypted ← lift (encrypt_entry k c b)
    pure (seal_bytes c exp now encrypted)

  unfoldable pub seal : Codec → Settings Pool → Value → ℤ → Instant → M World (Result Error Value)
  seal k c (entry payload a x) exp now =
      if c.encrypt_data
      then seal_payload k c exp now (k.gob_encode payload)
      else pure (ok (entry payload a x))
  seal k c v exp now = pure (ok v)

  abbrev pub set_sealed : Pool → Bytes → ℤ → Result Error Value → M World (Option Error)
  set_sealed p key exp (err e) = pure (some e)
  set_sealed p key exp (ok v) = asserting (s.is_store p) (s.set p key v exp)

  unfoldable pub set :
      Codec → GenericCache Pool → Bytes → Value → ℤ → Instant → M World (Option Error)
  unfolding seal
  set k c key v exp now = elim ((settings c).cache) [
    | none ↦ pure (some no_cache)
    | some p ↦ do
      sealed ← seal k (settings c) v exp now
      set_sealed p key (exp_or_default exp (settings c).default_exp) sealed
  ]

  -- An error of a counter comes with the value 0.
  abbrev pub counted : Count → Count
  counted (n, none) = (n, none)
  counted (n, some e) = (0, some e)

  abbrev pub counting :
      (Pool → Bool)
      → (Pool → Bytes → ℕ → M World Count)
      → GenericCache Pool
      → Bytes
      → ℕ
      → M World Count
  counting is op c key n =
      with_store (0, some no_cache) is ((settings c).cache) λ p. do r ← op p key n; pure (counted r)

  unfoldable pub increment : GenericCache Pool → Bytes → ℕ → M World Count
  increment = counting s.is_store s.increment

  unfoldable pub decrement : GenericCache Pool → Bytes → ℕ → M World Count
  decrement = counting s.is_store s.decrement

  unfoldable pub redis_increment_atomic : GenericCache Pool → Bytes → ℕ → M World Count
  redis_increment_atomic = counting s.is_redis s.increment_atomic

  unfoldable pub redis_increment_check_set : GenericCache Pool → Bytes → ℕ → M World Count
  redis_increment_check_set = counting s.is_redis s.increment_check_set

  unfoldable pub redis_expire_at : GenericCache Pool → Bytes → ℕ → M World (Option Error)
  redis_expire_at c key epoc =
      with_store (some no_cache) s.is_redis ((settings c).cache) λ p. s.expire_at p key epoc

  abbrev pub ttl_of : ℤ × Option Error → ℤ × Option Error
  ttl_of (ttl, none) = (ttl, none)
  ttl_of (ttl, some e) = (pos 0, some e)

  unfoldable pub redis_get_expires_in : GenericCache Pool → Bytes → M World (ℤ × Option Error)
  redis_get_expires_in c key =
      with_store (pos 0, some no_cache) s.is_redis ((settings c).cache)
        λ p. do r ← s.get_expires_in p key; pure (ttl_of r)

  -- The store's error is dropped.
  unfoldable pub flush : GenericCache Pool → M World (Option Error)
  flush c =
      with_store (some no_cache) s.is_store ((settings c).cache) λ p. do _ ← s.flush p; pure none
