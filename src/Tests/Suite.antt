-- ===== src/Tests/Suite.antt =====
-- The tests of generic_test_store.go, tried on a new in-memory store.
use go_cache.Prelude.{◌≡◌, refl, [], true, false, arith}
use go_cache.Prelude.Int.{pos}
use go_cache.Outcome.{returns}
use go_cache.Lru.Recent.{recent}
use go_cache.Store.Local.{World, local}
use go_cache.Suite.{test_add}
use go_cache.Suite.Adds.{refusals, sleeping, test_add-swept}
use go_cache.Tests.Data.{world, at-Reads, empty-HoldsEntries}

test_add-swept_example :
    ((w : World recent) × (test_add (local recent (pos 0)) (sleeping recent true) tt world
        ≡ (returns [], w)))
    × ((w : World recent) × (test_add (local recent (pos 0)) (sleeping recent false) tt world
          ≡ (returns refusals, w)))
test_add-swept_example =
    test_add-swept recent (pos 0) world 1000 at-Reads (omega arith) (omega arith) empty-HoldsEntries
      refl
