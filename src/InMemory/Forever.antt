-- ===== src/InMemory/Forever.antt =====
-- Entries without an expiry (inmemory.go): FOREVER as it is passed to `Set`, as the `DefaultExp` of
-- the store, and as it is passed to `NewGenericCacheEntry`.
use go_cache.Prelude.{ℕ, ◌<◌, ◌≡◌, Option, ap, none, ◌∙◌, some, true, Bytes, arith}
use go_cache.Prelude.Int.{ℤ, pos}
use go_cache.Clock.{Instant, Reads, whole_seconds}
use go_cache.Clock.Exact.{before-unix, to_unix-Reads}
use go_cache.Word.{add64, quot64}
use go_cache.Outcome.{Outcome, returns}
use go_cache.Error.{Error, cache_miss, not_stored}
use go_cache.Value.{Value, GenericCacheEntry, of_entry, Target, expired}
use go_cache.Lru.{Arc, run, ret, lru_add}
use go_cache.Lru.Run.{run-lru_get}
use go_cache.InMemory
use go_cache.InMemory.{if_found, failed, expiry, new_entry, forever, new_generic_cache_entry}
use go_cache.InMemory.Entries.{Sees, get_expired}
use go_cache.InMemory.Expiry.{past, get-set, get-set_forever}

-- `int64(FOREVER / time.Second)` is 0.
expired-default_forever :
    (v : Value) (m n : ℕ) (now later : Instant)
    → Reads now m
    → Reads later n
    → 0 < m
    → expired (new_entry forever v (pos 0) now) later ≡ past m n later
unfolding expired new_entry expiry whole_seconds quot64 add64
expired-default_forever v m n now later r s p =
    ground (arith, to_unix-Reads now m r, before-unix m n later s, s.sane, r.sane)

expired-made_forever :
    (d : ℤ) (v : Value) (m n : ℕ) (now later : Instant)
    → Reads now m
    → Reads later n
    → 0 < m
    → expired (new_generic_cache_entry d v forever now) later ≡ past m n later
unfolding expired new_generic_cache_entry whole_seconds quot64 add64
expired-made_forever d v m n now later r s p =
    ground (arith, to_unix-Reads now m r, before-unix m n later s, s.sane, r.sane)

module _ (arc : Arc) (l : arc.Lru) (key : Bytes) where
  open arc use {peek}

  update-peek :
      (x : Value) (e : GenericCacheEntry)
      → peek l key ≡ some x
      → peek (run arc (InMemory.update key e) l).1 key ≡ some (of_entry e)
  unfolding InMemory.update run
  update-peek x e h =
      ap (λ (r : Outcome (Option Error) × arc.Lru). peek r.1 key)
        (run-lru_get arc l key
          (if_found (lru_add key (of_entry e) (ret none)) (ret (some not_stored))) (some x) h)
      ∙ arc.peek-add_self (arc.get l key).1 key (of_entry e)

  -- Under a sane clock what is set with FOREVER is seen whenever it is read next. What is set with
  -- the default expiry of a store whose default is FOREVER is a miss as soon as the clock has moved
  -- on from the start of the second of the `Set`; and so is an entry that `NewGenericCacheEntry`
  -- has made with FOREVER, once `Update` has put it over a cached one.
  pub forever_lem :
      (d : ℤ) (v x : Value) (t : Target) (m n : ℕ) (now later : Instant)
      → Reads now m
      → Reads later n
      → 0 < m
      → past m n later ≡ true
      → peek l key ≡ some x
      → let read = λ (w : arc.Lru). (run arc (InMemory.get key t later) w).0 in
        Sees t (new_entry d v forever now) (read (run arc (InMemory.set d key v forever now) l).1)
        × (read (run arc (InMemory.set forever key v (pos 0) now) l).1
            ≡ returns (failed cache_miss))
        × (read (run arc (InMemory.update key (new_generic_cache_entry d v forever now)) l).1
            ≡ returns (failed cache_miss))
  forever_lem d v x t m n now later r s p late held =
      let made = new_generic_cache_entry d v forever now in
      (
        get-set_forever arc d l key v now later t,
        ((get-set arc forever l key v (pos 0) now later t).0
            (expired-default_forever v m n now later r s p ∙ late)).0,
        (get_expired arc (run arc (InMemory.update key made) l).1 key t later made
            (update-peek x made held) (expired-made_forever d v m n now later r s p ∙ late)).0,
      )
