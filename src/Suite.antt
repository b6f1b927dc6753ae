-- ===== src/Suite.antt =====
-- generic_test_store.go: the tests that every store is put through, as programs over a store. A
-- test gives what it reports, in order, each report by its format string; no report means that it
-- has passed. The store that the factory makes, and sleeping, are parameters.
pub mod Steps
pub mod Cached
pub mod Passes
pub mod Adds
use go_cache.Prelude.{
  ℕ, ◌+◌, ◌*◌, Option, none, some, List, [], ◌∷◌, ◌++◌, Bool, true, false, not, ◌&&◌, ◌||◌, Bytes,
  codes, ◌==◌, ltb, if◌then◌else◌, bytes_eq,
}
use go_cache.Prelude.Int.{ℤ, pos, eqb_ℤ, ltb_ℤ}
use go_cache.Word.{add64, to_uint64}
use go_cache.Clock.{Instant, second, to_unix}
use go_cache.Error.{Error, cache_miss, not_stored}
use go_cache.Value.{
  Value, nil, string, int, entry, of_entry, string_type, int_type, entry_type, other_type, Target,
  pointer, plain,
}
use go_cache.InMemory.{Got, Count, forever}
use go_cache.Store.{CacheStore, M, ◌>>=◌, pure, throw, asserting}
use go_cache.Generic.{Codec, GenericCache, settings, new_generic_cache_entry}
use go_cache.Generic.Writes
use go_cache.Generic.Reads
use go_cache.Generic.Reads.{pointee}

abbrev pub Reports : Type 0
Reports = List Bytes

-- `if failed { t.Errorf(text, …) }`.
abbrev pub report_if : Bool → Bytes → Reports
report_if b text = if b then text ∷ [] else []

-- `err != nil`.
abbrev pub failed : Option Error → Bool
failed none = false
failed (some e) = true

-- `err == persistence.ErrCacheMiss` and `err == persistence.ErrNotStored`.
abbrev pub is_miss : Option Error → Bool
is_miss (some cache_miss) = true
is_miss _ = false

abbrev pub is_not_stored : Option Error → Bool
is_not_stored (some not_stored) = true
is_not_stored _ = false

-- `persistence.DEFAULT`, and durations of so many seconds.
abbrev pub default : ℤ
default = pos 0

abbrev pub seconds : ℕ → ℤ
seconds n = pos (n * second)

-- What an `int` variable that holds `n` holds after a `Get` into it.
abbrev pub int_after : ℤ → Got → ℤ
int_after n g = elim (g.written) [ some (int m) ↦ m | _ ↦ n ]

abbrev pub text_after : Bytes → Got → Bytes
text_after t g = elim (g.written) [ some (string s) ↦ s | _ ↦ t ]

-- `if newValue, err = …; err != nil { … }; if newValue != n { … }`.
abbrev pub counted_to : ℕ → Bytes → Bytes → Count → Reports
counted_to n on_error on_value (m, e) =
    report_if (failed e) on_error ++ report_if (not (m == n)) on_value

abbrev int_key : Bytes
int_key = codes "int"

abbrev notexist : Bytes
notexist = codes "notexist"

module _ (s : CacheStore) (sleep : ℕ → M s.World (Unit {0})) (cache : s.Pool) where
  open s use {World}

  unfoldable pub incr_decr : M World Reports
  incr_decr = do
    set ← s.set cache int_key (int (pos 10)) default
    more ← s.increment cache int_key 50
    less ← s.decrement cache int_key 50
    around ← s.increment cache int_key 18446744073709551610
    capped ← s.decrement cache int_key 25
    pure (
        report_if (failed set) (codes "Error setting int: %s")
        ++ (counted_to 60 (codes "Error incrementing int: %s") (codes "Expected 60, was %d") more
            ++ (counted_to 10 (codes "Error decrementing: %s") (codes "Expected 10, was %d") less
                ++ (counted_to 4 (codes "Error wrapping around: %s")
                      (codes "Expected wraparound 4, got %d") around
                    ++ counted_to 0 (codes "Error decrementing below 0: %s")
                        (codes "Expected capped at 0, got %d") capped))))

  -- The variable of the reads is 0 before the first, and keeps what a read leaves in it.
  unfoldable pub expiration : M World Reports
  expiration = do
    _ ← s.set cache int_key (int (pos 777)) (seconds 1)
    _ ← sleep 2
    first ← s.get cache int_key (pointer int_type)
    _ ← s.set cache int_key (int (pos 777)) (seconds 1)
    _ ← sleep 2
    short ← s.get cache int_key (pointer int_type)
    _ ← s.set cache int_key (int (pos 777)) (seconds 3600)
    _ ← sleep 2
    longer ← s.get cache int_key (pointer int_type)
    _ ← s.set cache int_key (int (pos 777)) forever
    _ ← sleep 2
    last ← s.get cache int_key (pointer int_type)
    pure (
        report_if (not (is_miss first.error)) (codes "Expected CacheMiss, but got: %s - %v")
        ++ (report_if (not (is_miss short.error)) (codes "Expected CacheMiss, but got: %s")
            ++ (report_if (failed longer.error) (codes "Expected to get the value, but got: %s")
                ++ report_if (failed last.error) (codes "Expected to get the value, but got: %s"))))

  unfoldable pub empty_cache : M World Reports
  empty_cache = do
    got ← s.get cache notexist (plain int_type)
    deleted ← s.delete cache notexist
    more ← s.increment cache notexist 1
    less ← s.decrement cache notexist 1
    pure (
        report_if (not (failed got.error)) (codes "Error expected for non-existent key")
        ++ (report_if (not (is_miss got.error))
              (codes "Expected ErrCacheMiss for non-existent key: %s")
            ++ (report_if (not (is_miss deleted))
                  (codes "Expected ErrCacheMiss for non-existent key: %s")
                ++ (report_if (not (is_miss more.1))
                      (codes "Expected cache miss incrementing non-existent key: %s")
                    ++ report_if (not (is_miss less.1))
                        (codes "Expected cache miss decrementing non-existent key: %s")))))

  abbrev refused : Option Error → Bool
  refused e = is_not_stored e || is_miss e

  unfoldable pub test_replace : M World Reports
  test_replace = do
    absent ← s.replace cache notexist (int (pos 1)) forever
    set ← s.set cache int_key (int (pos 1)) (seconds 1)
    replaced ← s.replace cache int_key (int (pos 2)) (seconds 1)
    read ← s.get cache int_key (pointer int_type)
    _ ← sleep 5
    late ← s.replace cache int_key (int (pos 3)) (seconds 1)
    after ← s.get cache int_key (pointer int_type)
    pure (
        report_if (not (refused absent))
          (codes "Replace in empty cache: expected ErrNotStored or ErrCacheMiss, got: %s")
        ++ (report_if (failed set) (codes "Unexpected error: %s")
            ++ (report_if (failed replaced) (codes "Unexpected error: %s")
                ++ (report_if (failed read.error)
                      (codes "Unexpected error getting a replaced item: %s")
                    ++ (report_if (not (eqb_ℤ (int_after (pos 0) read) (pos 2)))
                          (codes "Expected 2, got %d")
                        ++ (report_if (not (refused late))
                              (codes "Expected ErrNotStored or ErrCacheMiss, got: %s")
                            ++ report_if (not (is_miss after.error))
                                (codes "Expected cache miss, got: %s")))))))

  unfoldable pub test_add : M World Reports
  test_add = do
    first ← s.add cache int_key (int (pos 1)) (seconds 1)
    again ← s.add cache int_key (int (pos 2)) (seconds 1)
    _ ← sleep 2
    later ← s.add cache int_key (int (pos 3)) (seconds 1)
    read ← s.get cache int_key (pointer int_type)
    pure (
        report_if (failed first) (codes "Unexpected error adding to empty cache: %s")
        ++ (report_if (not (is_not_stored again))
              (codes "Expected ErrNotStored adding dupe to cache: %s")
            ++ (report_if (failed later) (codes "Unexpected error adding to cache: %s")
                ++ (report_if (failed read.error) (codes "Unexpected error: %s")
                    ++ report_if (not (eqb_ℤ (int_after (pos 0) read) (pos 3)))
                        (codes "Expected 3, got: %d")))))
