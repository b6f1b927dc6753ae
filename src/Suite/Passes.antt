-- ===== src/Suite/Passes.antt =====
-- The tests of generic_test_store.go on the in-memory store (inmemory.go).
use go_cache.Prelude.{ℕ, ◌≡◌, refl, none, some, [], codes}
use go_cache.Prelude.Int.{ℤ, pos}
use go_cache.Word.{to_uint64, to_int64, add64, sub64}
use go_cache.Outcome.{returns}
use go_cache.Error.{cache_miss}
use go_cache.Value.{int, int_type, plain}
use go_cache.Lru.{Arc}
use go_cache.Lru.Run.{HoldsEntries}
use go_cache.InMemory.{failed, new_entry}
use go_cache.InMemory.Reference.Moved.{view}
use go_cache.Store.{CacheStore, M}
use go_cache.Store.Local.{World, local}
use go_cache.Suite.{incr_decr, empty_cache}
use go_cache.Suite.Steps.{get_step, set_step, delete_step, increment_step, decrement_step}

module _ (s : CacheStore) (sleep : ℕ → M s.World (Unit {0})) (p : s.Pool) where
  incr_decr-of :
      {w w1 w2 w3 w4 w5 : s.World}
      → s.set p (codes "int") (int (pos 10)) (pos 0) w ≡ (returns none, w1)
      → s.increment p (codes "int") 50 w1 ≡ (returns (60, none), w2)
      → s.decrement p (codes "int") 50 w2 ≡ (returns (10, none), w3)
      → s.increment p (codes "int") 18446744073709551610 w3 ≡ (returns (4, none), w4)
      → s.decrement p (codes "int") 25 w4 ≡ (returns (0, none), w5)
      → incr_decr s sleep p w ≡ (returns [], w5)
  unfolding incr_decr
  incr_decr-of a b c d e =
      rw (a, incr_decr)
        (rw (b, incr_decr) (rw (c, incr_decr) (rw (d, incr_decr) (rw (e, incr_decr) refl))))

  empty_cache-of :
      {w w1 w2 w3 w4 : s.World}
      → s.get p (codes "notexist") (plain int_type) w ≡ (returns (failed cache_miss), w1)
      → s.delete p (codes "notexist") w1 ≡ (returns (some cache_miss), w2)
      → s.increment p (codes "notexist") 1 w2 ≡ (returns (0, some cache_miss), w3)
      → s.decrement p (codes "notexist") 1 w3 ≡ (returns (0, some cache_miss), w4)
      → empty_cache s sleep p w ≡ (returns [], w4)
  unfolding empty_cache
  empty_cache-of a b c d =
      rw (a, empty_cache) (rw (b, empty_cache) (rw (c, empty_cache) (rw (d, empty_cache) refl)))

module _ (arc : Arc) (d : ℤ) (sleep : ℕ → M (World arc) (Unit {0})) (w : World arc)
    (h : HoldsEntries arc w.lru) where
  incr_decr-passes : (w' : World arc) × (incr_decr (local arc d) sleep tt w ≡ (returns [], w'))
  unfolding new_entry add64 sub64 to_int64 to_uint64
  incr_decr-passes =
      let key = codes "int" in
      let a = set_step arc d key w (view arc w.lru key) h refl (int (pos 10)) (pos 0) in
      let b = increment_step arc d key a.world _ a.holds a.at_key 50 (60, none) refl in
      let c = decrement_step arc d key b.world _ b.holds b.at_key 50 (10, none) refl in
      let f =
        increment_step arc d key c.world _ c.holds c.at_key 18446744073709551610 (4, none) refl in
      let g = decrement_step arc d key f.world _ f.holds f.at_key 25 (0, none) refl in
      (
        g.world,
        incr_decr-of (local arc d) sleep tt a.is_outcome b.is_outcome c.is_outcome f.is_outcome
            g.is_outcome,
      )

  -- A key that the cache does not hold is a miss for every method that the test calls.
  empty_cache-passes :
      view arc w.lru (codes "notexist") ≡ none
      → (w' : World arc) × (empty_cache (local arc d) sleep tt w ≡ (returns [], w'))
  empty_cache-passes v =
      let key = codes "notexist" in
      let a = get_step arc d key w none h v (plain int_type) (failed cache_miss) refl in
      let b = delete_step arc d key a.world _ a.holds a.at_key (some cache_miss) refl in
      let c = increment_step arc d key b.world _ b.holds b.at_key 1 (0, some cache_miss) refl in
      let e = decrement_step arc d key c.world _ c.holds c.at_key 1 (0, some cache_miss) refl in
      (
        e.world,
        empty_cache-of (local arc d) sleep tt a.is_outcome b.is_outcome c.is_outcome e.is_outcome,
      )

  -- On a store that holds entries only, and none under the key of `emptyCache`, `incrDecr` and
  -- `emptyCache` report nothing.
  counting_tests-pass :
      view arc w.lru (codes "notexist") ≡ none
      → ((w' : World arc) × (incr_decr (local arc d) sleep tt w ≡ (returns [], w')))
        × ((w' : World arc) × (empty_cache (local arc d) sleep tt w ≡ (returns [], w')))
  counting_tests-pass v = (incr_decr-passes, empty_cache-passes v)
