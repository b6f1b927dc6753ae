-- ===== src/Store/Existing.antt =====
-- `AddExistingEntry` (generic.go) over the store of inmemory.go: which time of expiry is cached.
use go_cache.Prelude.{
  ℕ, ◌+◌, ◌-◌, ◌*◌, ◌/◌, ◌<◌, ◌≤◌, ◌≡◌, ap₂, some, none, Bytes, if◌then◌else◌, ltb, inl, inr,
  Bool-cases, arith,
}
use go_cache.Prelude.Int.{ℤ, pos}
use go_cache.Word.{add64, sub64, mul64, quot64, to_int64, to_uint64}
use go_cache.Clock.{Instant, second, Reads, to_unix, whole_seconds}
use go_cache.Clock.Exact.{to_unix-Reads}
use go_cache.Outcome.{returns}
use go_cache.Value.{entry, GenericCacheEntry}
use go_cache.Lru.{Arc, run}
use go_cache.InMemory
use go_cache.InMemory.{expiry, new_entry}
use go_cache.Store.Local.{World, local}
use go_cache.Generic.{GenericCache, settings}
use go_cache.Generic.Writes.{add_existing_entry}

remaining : (x n : ℕ) → n ≤ x → x < 4611686018427387904 → sub64 (pos x) (pos n) ≡ pos (x - n)
unfolding sub64 to_int64 to_uint64
remaining x n p q = ground arith

duration : (s : ℕ) → s ≤ 9223372036 → mul64 (pos s) (pos second) ≡ pos (s * second)
unfolding mul64 to_int64 to_uint64
duration s p = ground arith

expiry-later :
    (d : ℤ) (x n : ℕ) (now : Instant)
    → Reads now n
    → n < x
    → x < 4611686018427387904
    → expiry d (pos ((x - n) * second)) now ≡ pos x
unfolding expiry whole_seconds quot64 add64
expiry-later d x n now r p q = ground (arith, to_unix-Reads now n r)

expiry-default :
    (d n : ℕ) (now : Instant)
    → Reads now n
    → n + d / second < 4611686018427387904
    → expiry (pos d) (pos 0) now ≡ pos (n + d / second)
unfolding expiry whole_seconds quot64 add64
expiry-default d n now r p = ground (arith, to_unix-Reads now n r)

-- The expiry that the store computes from the duration that is left.
expiry-remaining :
    (d x n : ℕ) (now later : Instant)
    → Reads now n
    → Reads later n
    → n ≤ x
    → x - n ≤ 9223372036
    → x < 4611686018427387904
    → n + d / second < 4611686018427387904
    → expiry (pos d) (mul64 (sub64 (pos x) (to_unix now)) (pos second)) later
      ≡ pos (if ltb n x then x else n + d / second)
expiry-remaining d x n now later r s p q u v =
    rw (to_unix-Reads now n r, remaining x n p u, duration (x - n) q)
      (elim (Bool-cases (ltb n x)) [
        | inl e ↦ rw e (expiry-later (pos d) x n later s (ground arith) u)
        | inr e ↦ let same : x - n ≡ 0 = ground arith in rw (e, same) (expiry-default d n later s v)
      ])

-- An entry is handed over to a cache with an in-memory store, by a sane clock that reads the same
-- second in both. If its expiry is later, by no more than 9223372036 seconds, it is cached with its
-- data and that expiry. If it expires at this very second, it is cached for the store's default
-- expiry.
pub add_existing_entry_lem :
    (arc : Arc) (d : ℕ) (c : GenericCache (Unit {0})) (key : Bytes) (e : GenericCacheEntry)
    (x n : ℕ) (now : Instant) (w : World arc)
    → (settings c).cache ≡ some tt
    → Reads now n
    → Reads w.now n
    → n ≤ x
    → x - n ≤ 9223372036
    → x < 4611686018427387904
    → n + d / second < 4611686018427387904
    → add_existing_entry (local arc (pos d)) c key e (pos x) now w ≡ (
      returns none,
      record w {
        lru =
            arc.add w.lru key
              (entry e.payload (pos n) (pos (if ltb n x then x else n + d / second)));
      },
    )
unfolding add_existing_entry InMemory.set run new_entry
add_existing_entry_lem arc d c key e x n now w h r s p q u v =
    rw (h, add_existing_entry)
      (ap₂ (λ (a t : ℤ). (returns none, record w { lru = arc.add w.lru key (entry e.payload a t) }))
        (to_unix-Reads w.now n s) (expiry-remaining d x n now w.now r s p q u v))
