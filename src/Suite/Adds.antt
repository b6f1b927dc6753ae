-- ===== src/Suite/Adds.antt =====
-- `testAdd` of generic_test_store.go on the in-memory store (inmemory.go), while its janitor sweeps
-- and while it does not.
use go_cache.Prelude.{
  ℕ, ◌+◌, ◌<◌, ◌≡◌, refl, sym, ap, ◌∙◌, subst, Option, none, some, [], ◌∷◌, Bool, true, false,
  Bytes, codes, if◌then◌else◌, arith,
}
use go_cache.Prelude.Int.{ℤ, pos}
use go_cache.Word.{to_uint64, to_int64, add64}
use go_cache.Clock.{Instant, Reads, second}
use go_cache.Outcome.{returns}
use go_cache.Error.{cache_miss, not_stored}
use go_cache.Value.{
  Value, int, int_type, entry, GenericCacheEntry, of_entry, IsEntryIfAny, Target, pointer, expired,
}
use go_cache.Lru.{Arc, run}
use go_cache.Lru.Run.{IsSafe, HoldsEntries, run-IsSafe}
use go_cache.InMemory.{got, failed, new_entry, delete_expired}
use go_cache.InMemory.Expiry.{expired-new_entry}
use go_cache.InMemory.Sweep.{delete_expired_lem}
use go_cache.InMemory.Calls.{sweep-IsSafe}
use go_cache.InMemory.Reference.{read, spec, KeyCall, shown, reading}
use go_cache.InMemory.Reference.Moved.{to_cell, view}
use go_cache.Store.{CacheStore, M}
use go_cache.Store.Local.{World, local}
use go_cache.Suite.{Reports, test_add, seconds}
use go_cache.Suite.Steps.{Returned, get_step, add_step}

-- What `testAdd` reports if the third addition is refused and the last read misses.
abbrev pub refusals : Reports
refusals =
    codes "Unexpected error adding to cache: %s"
    ∷ codes "Unexpected error: %s"
    ∷ codes "Expected 3, got: %d"
    ∷ []

module _ (s : CacheStore) (sleep : ℕ → M s.World (Unit {0})) (p : s.Pool)
    {w w1 w2 w3 w4 w5 : s.World}
    (a : s.add p (codes "int") (int (pos 1)) (seconds 1) w ≡ (returns none, w1))
    (b : s.add p (codes "int") (int (pos 2)) (seconds 1) w1 ≡ (returns (some not_stored), w2))
    (c : sleep 2 w2 ≡ (returns tt, w3)) where
  test_add-passing :
      s.add p (codes "int") (int (pos 3)) (seconds 1) w3 ≡ (returns none, w4)
      → s.get p (codes "int") (pointer int_type) w4 ≡ (returns (got (int (pos 3))), w5)
      → test_add s sleep p w ≡ (returns [], w5)
  unfolding test_add
  test_add-passing e f =
      rw (a, test_add)
        (rw (b, test_add) (rw (c, test_add) (rw (e, test_add) (rw (f, test_add) refl))))

  test_add-refused :
      s.add p (codes "int") (int (pos 3)) (seconds 1) w3 ≡ (returns (some not_stored), w4)
      → s.get p (codes "int") (pointer int_type) w4 ≡ (returns (failed cache_miss), w5)
      → test_add s sleep p w ≡ (returns refusals, w5)
  unfolding test_add
  test_add-refused e f =
      rw (a, test_add)
        (rw (b, test_add) (rw (c, test_add) (rw (e, test_add) (rw (f, test_add) refl))))

spec-live :
    (d : ℤ) (t : Target) (now : Instant) (e : GenericCacheEntry)
    → expired e now ≡ false
    → (spec d (KeyCall.get t now) (some e)).0 ≡ reading (shown t e)
spec-live d t now e h = rw h refl

spec-dead :
    (d : ℤ) (t : Target) (now : Instant) (e : GenericCacheEntry)
    → expired e now ≡ true
    → (spec d (KeyCall.get t now) (some e)).0 ≡ returns (read (failed cache_miss))
spec-dead d t now e h = rw h refl

-- The clock, so many seconds later.
abbrev pub later : ℕ → Instant → Instant
later n t = record t { sec = add64 t.sec (pos n) }

module _ (arc : Arc) where
  -- Sleeping: the clock goes on, and then the janitor sweeps, or does not.
  unfoldable pub sleeping : Bool → ℕ → M (World arc) (Unit {0})
  sleeping swept n w = (
    returns tt,
    record w {
      now = later n w.now;
      lru = if swept then (run arc (delete_expired (λ i. later n w.now)) w.lru).1 else w.lru;
    },
  )

  later-Reads :
      (t : Instant) (n k : ℕ)
      → Reads t n
      → k < 1000
      → n + k < 4611686018427387904
      → Reads (later k t) (n + k)
  unfolding add64 to_int64 to_uint64
  later-Reads t n k r p q = record { reads = rw r.reads (ground arith); sane = q }

  peek-of_cell :
      (o : Option Value) (e : GenericCacheEntry)
      → IsEntryIfAny o
      → to_cell o ≡ some e
      → o ≡ some (of_entry e)
  peek-of_cell none e i h = cc
  peek-of_cell (some (entry d a x)) e i h =
      let same : record { payload = d; time_added = a; expires_at = x } ≡ e = cc in
      ap (λ (f : GenericCacheEntry). some (of_entry f)) same
  peek-of_cell (some _) e i h = absurd i

  delete_expired-IsSafe : (clock : ℕ → Instant) → IsSafe (delete_expired clock)
  unfolding delete_expired
  delete_expired-IsSafe clock ks = sweep-IsSafe clock 0 ks

  -- The janitor drops what has expired.
  swept-gone :
      (w : World arc) (key : Bytes) (e : GenericCacheEntry)
      → HoldsEntries arc w.lru
      → view arc w.lru key ≡ some e
      → expired e (later 2 w.now) ≡ true
      → HoldsEntries arc (sleeping true 2 w).1.lru × (view arc (sleeping true 2 w).1.lru key ≡ none)
  unfolding sleeping
  swept-gone w key e h v x =
      let clock : ℕ → Instant = λ i. later 2 w.now in
      (
        (run-IsSafe arc (delete_expired clock) w.lru (delete_expired-IsSafe clock) h).2,
        ap to_cell (
            ((delete_expired_lem arc clock w.lru h).1 key e
                (peek-of_cell (arc.peek w.lru key) e (h key) v)).0
              (λ i. x)),
      )

  module _ (d : ℤ) (w : World arc) (n : ℕ) (r : Reads w.now n) (p : 0 < n)
      (q : n + 3 < 4611686018427387904) (h : HoldsEntries arc w.lru)
      (v : view arc w.lru (codes "int") ≡ none) where
    -- The entry of a second is expired two seconds later.
    dead : (x : Value) → expired (new_entry d x (seconds 1) w.now) (later 2 w.now) ≡ true
    dead x =
        expired-new_entry d x second n (n + 2) w.now (later 2 w.now) r
          (later-Reads w.now n 2 r (omega arith) (omega arith)) p (omega arith) (omega arith)
        ∙ ground arith

    fresh :
        (x : Value) (now : Instant)
        → now ≡ later 2 w.now
        → expired (new_entry d x (seconds 1) now) now ≡ false
    fresh x now e =
        let reads =
          subst (λ (t : Instant). Reads t (n + 2)) (sym e)
            (later-Reads w.now n 2 r (omega arith) (omega arith)) in
        expired-new_entry d x second (n + 2) (n + 2) now now reads reads (omega arith) (omega arith)
          (omega arith)
        ∙ ground arith

    abbrev first : GenericCacheEntry
    first = new_entry d (int (pos 1)) (seconds 1) w.now

    abbrev added :
        Returned arc
          ((local arc d).add tt (codes "int") (int (pos 1)) (seconds 1) w)
          none
          (codes "int")
          (some first)
          w.now
    added = add_step arc d (codes "int") w none h v (int (pos 1)) (seconds 1) none refl

    -- The third addition, and the read, once the key is empty, and while it holds what has expired.
    third :
        (w3 : World arc)
        → w3.now ≡ later 2 w.now
        → HoldsEntries arc w3.lru
        → view arc w3.lru (codes "int") ≡ none
        → (w4 : World arc) × (w5 : World arc) × ((local arc d).add tt
              (codes "int")
              (int (pos 3))
              (seconds 1)
              w3
            ≡ (returns none, w4))
          × ((local arc d).get tt (codes "int") (pointer int_type) w4
              ≡ (returns (got (int (pos 3))), w5))
    unfolding new_entry
    third w3 e i c =
        let a = add_step arc d (codes "int") w3 none i c (int (pos 3)) (seconds 1) none refl in
        let stored = new_entry d (int (pos 3)) (seconds 1) w3.now in
        let live : expired stored a.world.now ≡ false =
          ap (expired stored) a.same_now ∙ fresh (int (pos 3)) w3.now e in
        let b =
          get_step arc d (codes "int") a.world _ a.holds a.at_key (pointer int_type)
            (got (int (pos 3))) (spec-live d (pointer int_type) a.world.now stored live) in
        (a.world, b.world, a.is_outcome, b.is_outcome)

    third_refused :
        (w3 : World arc)
        → w3.now ≡ later 2 w.now
        → HoldsEntries arc w3.lru
        → view arc w3.lru (codes "int") ≡ some first
        → (w4 : World arc) × (w5 : World arc) × ((local arc d).add tt
              (codes "int")
              (int (pos 3))
              (seconds 1)
              w3
            ≡ (returns (some not_stored), w4))
          × ((local arc d).get tt (codes "int") (pointer int_type) w4
              ≡ (returns (failed cache_miss), w5))
    third_refused w3 e i c =
        let a =
          add_step arc d (codes "int") w3 (some first) i c (int (pos 3)) (seconds 1)
            (some not_stored) refl in
        let gone : expired first a.world.now ≡ true =
          ap (expired first) (a.same_now ∙ e) ∙ dead (int (pos 1)) in
        let b =
          get_step arc d (codes "int") a.world (some first) a.holds a.at_key (pointer int_type)
            (failed cache_miss) (spec-dead d (pointer int_type) a.world.now first gone) in
        (a.world, b.world, a.is_outcome, b.is_outcome)

    -- On a store that holds nothing under the key, `testAdd` passes if the janitor sweeps while it
    -- sleeps; if not, it reports that the third addition was refused, and that the read missed.
    pub test_add-swept :
        ((w' : World arc) × (test_add (local arc d) (sleeping true) tt w ≡ (returns [], w')))
        × ((w' : World arc) × (test_add (local arc d) (sleeping false) tt w
              ≡ (returns refusals, w')))
    unfolding sleeping
    test_add-swept =
        let key = codes "int" in
        let again =
          add_step arc d key added.world _ added.holds added.at_key (int (pos 2)) (seconds 1)
            (some not_stored) refl in
        let same : again.world.now ≡ w.now = again.same_now ∙ added.same_now in
        let w3 : World arc = (sleeping true 2 again.world).1 in
        let v3 : World arc = (sleeping false 2 again.world).1 in
        let gone : expired first (later 2 again.world.now) ≡ true =
          ap (λ (t : Instant). expired first (later 2 t)) same ∙ dead (int (pos 1)) in
        let after = swept-gone again.world key first again.holds again.at_key gone in
        let passed = third w3 (ap (later 2) same) after.0 after.1 in
        let missed = third_refused v3 (ap (later 2) same) again.holds again.at_key in
        (
          (
            passed.1,
            test_add-passing (local arc d) (sleeping true) tt added.is_outcome again.is_outcome refl
                passed.2 passed.3,
          ),
          (
            missed.1,
            test_add-refused (local arc d) (sleeping false) tt added.is_outcome again.is_outcome
                refl missed.2 missed.3,
          ),
        )
