-- ===== src/Store/Refines/Leaves.antt =====
-- What a cache makes of the results of the in-memory store (generic.go, inmemory.go).
use go_cache.Prelude.{
  ℕ, ◌≡◌, refl, ap, Option, none, some, List, Bool, true, false, Bytes, if◌then◌else◌,
}
use go_cache.Prelude.Int.{ℤ}
use go_cache.Clock.{Instant}
use go_cache.Outcome.{returns}
use go_cache.Error.{cache_miss, is_cache_miss}
use go_cache.Value.{Value, string, int, response, entry, GenericCacheEntry, expired}
use go_cache.Lru.{
  Arc, Prog, ret, panic, lru_get, lru_add, lru_remove, lru_keys, lru_len, lru_purge, run,
}
use go_cache.InMemory
use go_cache.InMemory.{Got, got, failed, Count}
use go_cache.InMemory.Reference
use go_cache.InMemory.Reference.{KeyCall, Reply, read, done, counted, History, transcript}
use go_cache.Store.{CacheStore, after, pure}
use go_cache.Store.Local.{alone}
use go_cache.Store.Refines.{Readable, a_string, an_int, a_response, an_entry, target_of}
use go_cache.Generic.Writes
use go_cache.Generic.Reads.{missed}

-- What the code returns is left as it is by `g`.
abbrev pub Leaves : {A : Type 0} → (A → A) → Prog A → Type 0
Leaves g (ret a) = g a ≡ a
Leaves g panic = Unit {0}
Leaves g (lru_get k f) = (o : Option Value) → Leaves g (f o)
Leaves g (lru_add k v p) = Leaves g p
Leaves g (lru_remove k p) = Leaves g p
Leaves g (lru_keys f) = (ks : List Bytes) → Leaves g (f ks)
Leaves g (lru_len f) = (n : ℕ) → Leaves g (f n)
Leaves g (lru_purge p) = Leaves g p

if-Leaves :
    {A : Type 0} (g : A → A) (b : Bool) (p q : Prog A)
    → Leaves g p
    → Leaves g q
    → Leaves g (if b then p else q)
if-Leaves g true p q h i = h
if-Leaves g false p q h i = i

pub identity-Leaves : {A : Type 0} (p : Prog A) → Leaves (λ a. a) p
identity-Leaves (ret a) = refl
identity-Leaves panic = tt
identity-Leaves (lru_get k f) = λ o. identity-Leaves (f o)
identity-Leaves (lru_add k v p) = identity-Leaves p
identity-Leaves (lru_remove k p) = identity-Leaves p
identity-Leaves (lru_keys f) = λ ks. identity-Leaves (f ks)
identity-Leaves (lru_len f) = λ n. identity-Leaves (f n)
identity-Leaves (lru_purge p) = identity-Leaves p

module _ (arc : Arc) where
  -- A reply made of what the code returns, by the cache and by the reference.
  pub alone-Leaves :
      {A : Type 0} (f : A → Reply) (g : A → A) (p : Prog A) (now : Instant) (l : arc.Lru)
      → Leaves g p
      → after (alone arc p (record { lru = l; now = now })) (λ a. pure (f (g a)))
        ≡ alone arc (Reference.replying f p) (record { lru = l; now = now })
  unfolding run
  alone-Leaves f g (ret a) now l h = ap (λ b. (returns (f b), record { lru = l; now = now })) h
  alone-Leaves f g panic now l h = refl
  alone-Leaves f g (lru_get k p) now l h =
      alone-Leaves f g (p (arc.get l k).0) now (arc.get l k).1 (h (arc.get l k).0)
  alone-Leaves f g (lru_add k v p) now l h = alone-Leaves f g p now (arc.add l k v) h
  alone-Leaves f g (lru_remove k p) now l h = alone-Leaves f g p now (arc.remove l k) h
  alone-Leaves f g (lru_keys p) now l h = alone-Leaves f g (p (arc.keys l)) now l (h (arc.keys l))
  alone-Leaves f g (lru_len p) now l h = alone-Leaves f g (p (arc.len l)) now l (h (arc.len l))
  alone-Leaves f g (lru_purge p) now l h = alone-Leaves f g p now (arc.purge l) h

missed-write_out :
    (r : Readable) (e : GenericCacheEntry) → Leaves missed (InMemory.write_out (target_of r) e)
missed-write_out a_string e = by_payload e.payload
  where
    by_payload : (v : Value) → Leaves missed (InMemory.assert_string v)
    by_payload (string s) = refl
    by_payload v = tt
missed-write_out an_int e = by_payload e.payload
  where
    by_payload : (v : Value) → Leaves missed (InMemory.assert_int v)
    by_payload (int n) = refl
    by_payload v = tt
missed-write_out a_response e = by_payload e.payload
  where
    by_payload : (v : Value) → Leaves missed (InMemory.assert_response v)
    by_payload (response r) = refl
    by_payload v = tt
missed-write_out an_entry e = refl

pub missed-get :
    (r : Readable) (key : Bytes) (now : Instant)
    → Leaves missed (InMemory.get key (target_of r) now)
unfolding InMemory.get is_cache_miss
missed-get r key now = elim [
  | none ↦ refl
  | some (entry d a x) ↦
      if-Leaves missed (expired _ now) (lru_remove key (ret (failed cache_miss))) _ refl
        (missed-write_out r _)
  | some _ ↦ tt
]

module _ (s : CacheStore) where
  pub as_miss-delete : (key : Bytes) → Leaves (Writes.as_miss s) (InMemory.delete key)
  unfolding InMemory.delete is_cache_miss
  as_miss-delete key = elim [ none ↦ refl | some v ↦ refl ]

  pub counted-count :
      (op : ℤ → ℕ → ℤ) (key : Bytes) (n : ℕ) → Leaves (Writes.counted s) (InMemory.count op key n)
  unfolding InMemory.count InMemory.count_to
  counted-count op key n = elim [
    | none ↦ refl
    | some (entry d a x) ↦ by_payload a x d
    | some _ ↦ tt
  ]
    where
      by_payload :
          (a x : ℤ) (v : Value)
          → Leaves
              (Writes.counted s)
              (InMemory.count_to op key n (record { payload = v; time_added = a; expires_at = x }))
      by_payload a x (int m) = refl
      by_payload a x v = refl
