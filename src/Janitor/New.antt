-- ===== src/Janitor/New.antt =====
-- A new store (inmemory.go, `NewInMemoryStore`).
use go_cache.Prelude.{◌≡◌, ◌↔◌, refl, ap, none, some, Bool, Bytes, arith}
use go_cache.Prelude.Int.{ℤ, pos, ◌<ℤ◌, ◌≤ℤ◌}
use go_cache.Clock.{Instant}
use go_cache.Outcome.{Outcome, returns}
use go_cache.Error.{cache_miss}
use go_cache.Value.{Target}
use go_cache.Lru.{Arc, run}
use go_cache.Lru.Run.{run-lru_get}
use go_cache.InMemory
use go_cache.InMemory.{Got, failed}
use go_cache.Janitor.{NewStore, over_lru, new_in_memory_store}

module _ (arc : Arc) where
  get-new :
      (n : ℤ) (l : arc.Lru) (key : Bytes) (t : Target) (now : Instant)
      → arc.new_arc n ≡ some l
      → (run arc (InMemory.get key t now) l).0 ≡ returns (failed cache_miss)
  unfolding InMemory.get run
  get-new n l key t now h =
      ap (λ (r : Outcome Got × arc.Lru). r.0)
        (run-lru_get arc l key (InMemory.get_found key t now) none (arc.peek-new_arc n l key h))

  -- A store for no entries is refused. One for an entry or more is made; it has the default expiry
  -- that was asked for, a janitor exactly if the interval is positive, and a miss for every key.
  new_in_memory_store_lem :
      (n d i : ℤ) (m : Bool) (label : Bytes)
      → (n ≤ℤ pos 0 → new_in_memory_store arc n d i m label ≡ none)
        × (pos 1 ≤ℤ n
            → (new : NewStore arc) × (new_in_memory_store arc n d i m label ≡ some new)
              × (new.default_exp ≡ d)
              × ((new.janitor ≡ some i) ↔ (pos 0 <ℤ i))
              × ((key : Bytes) (t : Target) (now : Instant)
                  → (run arc (InMemory.get key t now) new.lru).0 ≡ returns (failed cache_miss)))
  unfolding new_in_memory_store
  new_in_memory_store_lem n d i m label = (
    λ h. rw (arc.new_arc-refused n h, new_in_memory_store) refl,
    λ h.
        let (l, made) = arc.new_arc-positive n h in
        (
          over_lru arc l d i m label,
          rw (made, new_in_memory_store) refl,
          refl,
          ground arith,
          λ key t now. get-new n l key t now made,
        ),
  )
