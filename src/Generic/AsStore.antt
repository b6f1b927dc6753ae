-- ===== src/Generic/AsStore.antt =====
-- A `GenericCache` (generic.go) as a store: it has the methods of `persistence.CacheStore`, and is
-- handed to the page cache as one. It is no `*RedisStore`. The variable that `Get` writes through
-- is taken to be zero before the call.
use go_cache.Prelude.{◌≡◌, refl, some, Bytes, true, false}
use go_cache.Prelude.Int.{ℤ, pos}
use go_cache.Clock.{Instant}
use go_cache.Outcome.{panics}
use go_cache.Value.{Value, nil, entry, ResponseCache, Target, pointer, entry_type}
use go_cache.Store.{CacheStore, asserting}
use go_cache.Generic.{Codec, GenericCache, settings, exp_or_default}
use go_cache.Generic.Writes
use go_cache.Generic.Reads
use go_cache.Page.{ResponseWriter}
use go_cache.Page.Chunks.{KeptResponse}

abbrev zero_of : Target → Value
zero_of (pointer entry_type) = entry nil (pos 0) (pos 0)
zero_of _ = nil

abbrev pub as_store : Codec → (s : CacheStore) → (s.World → Instant) → CacheStore
as_store k s clock = record {
  World = s.World;
  Pool = GenericCache s.Pool;
  is_store = λ c. true;
  is_redis = λ c. false;
  get = λ c key t. Reads.get k s c key t (zero_of t);
  set = λ c key v exp w. Writes.set s k c key v exp (clock w) w;
  add = Writes.add s;
  replace = Writes.replace s;
  delete = Writes.delete s;
  increment = Writes.increment s;
  decrement = Writes.decrement s;
  flush = Writes.flush s;
  expire_at = λ c key n w. (panics, w);
  get_expires_in = λ c key w. (panics, w);
  increment_atomic = λ c key n w. (panics, w);
  increment_check_set = λ c key n w. (panics, w);
}

-- A response goes to the store as it is, encryption or not, and comes back as it was.
pub as_store-KeptResponse :
    (k : Codec) (s : CacheStore) (clock : s.World → Instant) (gin : ResponseWriter)
    (c : GenericCache s.Pool) (p : s.Pool) (key : Bytes) (exp : ℤ) (w : s.World) (r : ResponseCache)
    → (settings c).cache ≡ some p
    → s.is_store p ≡ true
    → KeptResponse s gin p key (exp_or_default exp (settings c).default_exp) w r
    → KeptResponse (as_store k s clock) gin c key exp w r
unfolding Writes.set Writes.seal Reads.get Reads.request
as_store-KeptResponse k s clock gin c p key exp w r cached fits kept = record {
  after_set = kept.after_set;
  after_get = kept.after_get;
  is_set = rw (cached, Writes.set) (rw (fits, Writes.set_sealed) kept.is_set);
  is_got = rw (cached, Reads.get) (rw (fits, asserting) (rw kept.is_got refl));
}
