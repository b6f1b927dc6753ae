-- ===== src/Generic/Methods.antt =====
-- generic.go: every method of `GenericCache` that takes part in the work of a store, as a request.
pub mod Counted
pub mod Calling
pub mod OneCall
use go_cache.Prelude.{ℕ, Option, Bytes}
use go_cache.Prelude.Int.{ℤ}
use go_cache.Clock.{Instant}
use go_cache.Error.{Error}
use go_cache.Value.{Value, GenericCacheEntry, Target}
use go_cache.InMemory.{Got, Count}
use go_cache.Store.{CacheStore, M, ◌>>=◌, pure}
use go_cache.Generic.{Codec, GenericCache}
use go_cache.Generic.Writes
use go_cache.Generic.Reads
use go_cache.Generic.Reads.{Found}

pub data Method : Type 0 where
  add_existing_entry : Bytes → GenericCacheEntry → ℤ → Instant → Method
  add replace : Bytes → Value → ℤ → Method
  set : Bytes → Value → ℤ → Instant → Method
  delete exists : Bytes → Method
  increment decrement redis_increment_atomic redis_increment_check_set : Bytes → ℕ → Method
  redis_expire_at : Bytes → ℕ → Method
  redis_get_expires_in : Bytes → Method
  flush : Method
  get : Bytes → Target → Value → Method

-- What a method returns.
pub data Reply : Type 0 where
  error : Option Error → Reply
  count : Count → Reply
  expires_in : ℤ × Option Error → Reply
  found : Found → Reply
  got : Got → Reply

abbrev pub returning : {W A : Type 0} → (A → Reply) → M W A → M W Reply
returning f m = m >>= λ a. pure (f a)

module _ (k : Codec) (s : CacheStore) where
  unfoldable pub perform : GenericCache s.Pool → Method → M s.World Reply
  unfolding Writes.add_existing_entry Writes.add Writes.replace Writes.set Writes.delete
      Reads.exists Writes.increment Writes.decrement Writes.redis_increment_atomic
      Writes.redis_increment_check_set Writes.redis_expire_at Writes.redis_get_expires_in
      Writes.flush Reads.get
  perform c (add_existing_entry key e expires_at now) =
      returning error (Writes.add_existing_entry s c key e expires_at now)
  perform c (add key v exp) = returning error (Writes.add s c key v exp)
  perform c (replace key v exp) = returning error (Writes.replace s c key v exp)
  perform c (set key v exp now) = returning error (Writes.set s k c key v exp now)
  perform c (delete key) = returning error (Writes.delete s c key)
  perform c (exists key) = returning found (Reads.exists k s c key)
  perform c (increment key n) = returning count (Writes.increment s c key n)
  perform c (decrement key n) = returning count (Writes.decrement s c key n)
  perform c (redis_increment_atomic key n) =
      returning count (Writes.redis_increment_atomic s c key n)
  perform c (redis_increment_check_set key n) =
      returning count (Writes.redis_increment_check_set s c key n)
  perform c (redis_expire_at key epoc) = returning error (Writes.redis_expire_at s c key epoc)
  perform c (redis_get_expires_in key) = returning expires_in (Writes.redis_get_expires_in s c key)
  perform c flush = returning error (Writes.flush s c)
  perform c (get key value initial) = returning got (Reads.get k s c key value initial)
