-- ===== src/Tests/Memory.antt =====
-- inmemory.go, tried.
use go_cache.Prelude.{
  bytes_eq, inr, ℕ, ◌≡◌, refl, some, none, true, false, List, [], ◌∷◌, Bytes, codes, arith,
}
use go_cache.Prelude.Int.{pos}
use go_cache.Word.{to_uint64, to_int64, add64}
use go_cache.Outcome.{returns}
use go_cache.Error.{cache_miss}
use go_cache.Value.{
  Value, string, int, entry, GenericCacheEntry, of_entry, string_type, entry_type, pointer, expired,
}
use go_cache.Lru.{ret, run}
use go_cache.Lru.Recent.{recent, Cache}
use go_cache.Lru.Run.{HoldsEntries, HoldsAll}
use go_cache.Clock.{Instant}
use go_cache.InMemory.Typed.{HasType, NonePanics, interleaved-HasType}
use go_cache.Lru.Threads.{AreSafe, interleave}
use go_cache.InMemory
use go_cache.InMemory.{Got, got, failed, new_entry, forever, incremented, new_generic_cache_entry}
use go_cache.InMemory.Calls.{Call, perform, goroutines, interleaved_safe}
use go_cache.InMemory.Counters.{increment_lem, decrement_lem}
use go_cache.InMemory.Entries.{Sees}
use go_cache.InMemory.Expiry.{get-set_deadline}
use go_cache.InMemory.Forever.{forever_lem}
use go_cache.InMemory.Reference.{KeyCall, History, transcript}
use go_cache.InMemory.Reference.Moved.{view}
use go_cache.InMemory.Reference.Refines.{run_calls, run_calls-History}
use go_cache.Lru.Turns.{IsFinished}
use go_cache.InMemory.Ends.{goroutines-finish}
use go_cache.InMemory.Races.{expired_drops_set, second_write_wins}
use go_cache.InMemory.Sweep.{delete_expired_lem}
use go_cache.Tests.Data.{
  key, at, at-Reads, later-Reads, empty, holding, empty-HoldsEntries, holding-HoldsEntries, held,
}

abbrev text : Value
text = string (codes "hello")

-- Set at second 1000 for a minute, read at second 1060, just past it.
get-set_deadline_example :
    (run recent
      (InMemory.get key (pointer string_type) (at 1060))
      (run recent (InMemory.set (pos 0) key text (pos 60000000000) (at 1000)) empty).1).0
    ≡ returns (failed cache_miss)
get-set_deadline_example =
    get-set_deadline recent (pos 0) empty key (codes "hello") 60000000000 1000 1060 (at 1000)
      (at 1060) at-Reads later-Reads (omega arith) (omega arith) (omega arith)

-- Cached at second 1000, read at second 1060.
forever_lem_example :
    let read = λ (w : Cache). (run recent (InMemory.get key (pointer entry_type) (at 1060)) w).0 in
    Sees
      (pointer entry_type)
      (new_entry (pos 0) text forever (at 1000))
      (read (run recent (InMemory.set (pos 0) key text forever (at 1000)) (holding text 2000)).1)
    × (read (run recent (InMemory.set forever key text (pos 0) (at 1000)) (holding text 2000)).1
        ≡ returns (failed cache_miss))
    × (read
          (run recent
            (InMemory.update key (new_generic_cache_entry (pos 0) text forever (at 1000)))
            (holding text 2000)).1
        ≡ returns (failed cache_miss))
forever_lem_example =
    forever_lem recent (holding text 2000) key (pos 0) text (entry text (pos 900) (pos 2000))
      (pointer entry_type) 1000 1060 (at 1000) (at 1060) at-Reads later-Reads (omega arith) refl
      (held text 2000)

abbrev calls : List Call
calls =
    Call.get key (pointer entry_type) (at 1060)
    ∷ Call.set key text (pos 5) (at 1000)
    ∷ Call.increment key 3
    ∷ Call.delete_expired (λ n. at 1060)
    ∷ []

interleaved_safe_example :
    AreSafe (interleave recent (1 ∷ 3 ∷ 0 ∷ 3 ∷ 2 ∷ 0 ∷ 3 ∷ []) (goroutines (pos 0) calls) empty).0
    × HoldsEntries recent
        (interleave recent (1 ∷ 3 ∷ 0 ∷ 3 ∷ 2 ∷ 0 ∷ 3 ∷ []) (goroutines (pos 0) calls) empty).1
interleaved_safe_example =
    interleaved_safe recent (pos 0) calls (1 ∷ 3 ∷ 0 ∷ 3 ∷ 2 ∷ 0 ∷ 3 ∷ []) empty
      (tt, (tt, (tt, (tt, tt)))) empty-HoldsEntries

abbrev old : GenericCacheEntry
old = record { payload = text; time_added = pos 900; expires_at = pos 950 }

old-expired : expired old (at 1000) ≡ true
unfolding expired add64 to_int64 to_uint64
old-expired = refl

delete_expired_lem_example :
    let r = run recent (InMemory.delete_expired (λ n. at 1000)) (holding text 950) in
    (r.0 ≡ returns tt)
    × ((j : Bytes) (e : GenericCacheEntry)
        → recent.peek (holding text 950) j ≡ some (of_entry e)
        → (((n : ℕ) → expired e (at 1000) ≡ true) → recent.peek r.1 j ≡ none)
          × (((n : ℕ) → expired e (at 1000) ≡ false) → recent.peek r.1 j ≡ some (of_entry e)))
    × ((j : Bytes) → recent.peek (holding text 950) j ≡ none → recent.peek r.1 j ≡ none)
delete_expired_lem_example =
    delete_expired_lem recent (λ n. at 1000) (holding text 950) (holding-HoldsEntries text 950)

expired_drops_set_example :
    let set = perform (pos 0) (Call.set key text (pos 5) (at 1000)) in
    let get = perform (pos 0) (Call.get key (pointer entry_type) (at 1000)) in
    let clock : ℕ → Instant = λ n. at 1000 in
    let r = interleave recent (0 ∷ 1 ∷ 0 ∷ []) (get ∷ set ∷ []) (holding text 950) in
    let r' =
      interleave recent
        (0 ∷ 1 ∷ 0 ∷ [])
        (InMemory.sweep clock 0 (key ∷ []) ∷ set ∷ [])
        (holding text 950) in
    (r.0 ≡ ret tt ∷ ret tt ∷ [])
    × (recent.peek r.1 key ≡ none)
    × (r'.0 ≡ InMemory.sweep clock 1 [] ∷ ret tt ∷ [])
    × (recent.peek r'.1 key ≡ none)
expired_drops_set_example =
    expired_drops_set recent (holding text 950) key (pos 0) (pos 5) old (pointer entry_type) text
      (λ n. at 1000) 0 [] (at 1000) (held text 950) old-expired

second_write_wins_example :
    let turns : List ℕ = 0 ∷ 1 ∷ 0 ∷ 1 ∷ [] in
    let r =
      interleave recent turns
        (goroutines (pos 0) (Call.increment key 1 ∷ Call.increment key 2 ∷ []))
        (holding (int (pos 10)) 2000) in
    let r' =
      interleave recent turns
        (goroutines (pos 0) (
          Call.add (codes "other") (int (pos 1)) (pos 5) (at 1000)
          ∷ Call.add (codes "other") (int (pos 2)) (pos 5) (at 1000)
          ∷ []))
        (holding (int (pos 10)) 2000) in
    (r.0 ≡ ret tt ∷ ret tt ∷ [])
    × (recent.peek r.1 key ≡ some (entry (int (pos 12)) (pos 900) (pos 2000)))
    × (r'.0 ≡ ret tt ∷ ret tt ∷ [])
    × (recent.peek r'.1 (codes "other")
        ≡ some (of_entry (new_entry (pos 0) (int (pos 2)) (pos 5) (at 1000))))
unfolding add64 to_int64 to_uint64 bytes_eq
second_write_wins_example =
    second_write_wins recent (holding (int (pos 10)) 2000) key (codes "other") (pos 0) 1 2 (pos 10)
      (pos 900) (pos 2000) (pos 5) (pos 5) (int (pos 1)) (int (pos 2)) (at 1000) (at 1000)
      (held (int (pos 10)) 2000) refl

-- A reader, a writer and a sweep of keys that hold strings.
abbrev typed_calls : List Call
typed_calls =
    Call.get key (pointer string_type) (at 1000)
    ∷ Call.set key text (pos 5) (at 1000)
    ∷ Call.increment key 3
    ∷ Call.delete_expired (λ n. at 1060)
    ∷ []

interleaved-HasType_example :
    let r =
      interleave recent (0 ∷ 3 ∷ 1 ∷ 2 ∷ 3 ∷ 0 ∷ 3 ∷ []) (goroutines (pos 0) typed_calls) empty in
    NonePanics r.0 × HoldsAll (HasType (λ k. string_type)) recent r.1
interleaved-HasType_example =
    interleaved-HasType (λ k. string_type) recent (pos 0) typed_calls
      (0 ∷ 3 ∷ 1 ∷ 2 ∷ 3 ∷ 0 ∷ 3 ∷ []) empty (inr refl, ((refl, tt), (tt, (tt, tt)))) (λ k. tt)

decrement_lem_example :
    ((run recent (InMemory.decrement key 18446744073709551610) (holding (int (pos 4)) 2000)).0
      ≡ returns (10, none))
    × (recent.peek
          (run recent (InMemory.decrement key 18446744073709551610) (holding (int (pos 4)) 2000)).1
          key
        ≡ some (entry (int (pos 10)) (pos 900) (pos 2000)))
decrement_lem_example =
    decrement_lem recent (holding (int (pos 4)) 2000) key 18446744073709551610 4 (pos 900)
      (pos 2000) (omega arith) (omega arith) (inr (omega arith, omega arith))
      (held (int (pos 4)) 2000)

-- An addition, an increment of it, and a read, listed last first.
abbrev key_calls : List (Bytes × KeyCall)
key_calls =
    (key, KeyCall.get (pointer entry_type) (at 1000))
    ∷ (key, KeyCall.increment 2)
    ∷ (key, KeyCall.add (int (pos 5)) (pos 60000000000) (at 1000))
    ∷ []

run_calls-History_example :
    (h : History
      (pos 0)
      (view recent empty)
      (view recent (run_calls recent (pos 0) key_calls empty).1))
    × (transcript h ≡ (run_calls recent (pos 0) key_calls empty).0)
    × HoldsEntries recent (run_calls recent (pos 0) key_calls empty).1
run_calls-History_example = run_calls-History recent (pos 0) key_calls empty empty-HoldsEntries

-- A sweep, before whose first turn another goroutine sets a key and a third moves as well.
abbrev sweeping_calls : List Call
sweeping_calls =
    Call.set key text (pos 60000000000) (at 1060)
    ∷ Call.delete_expired (λ i. at 1060)
    ∷ Call.delete_expired (λ i. at 1060)
    ∷ []

goroutines-finish_example :
    IsFinished
      (interleave recent (0 ∷ 2 ∷ 1 ∷ 1 ∷ 2 ∷ 1 ∷ []) (goroutines (pos 0) sweeping_calls) empty).0
      1
unfolding interleave goroutines go_cache.Lru.step
goroutines-finish_example =
    goroutines-finish recent (pos 0) sweeping_calls empty 1 (0 ∷ 2 ∷ 1 ∷ 1 ∷ 2 ∷ 1 ∷ [])
      (Call.delete_expired (λ i. at 1060)) refl
      (0 ∷ 2 ∷ [], 1 ∷ 2 ∷ 1 ∷ [], refl, refl, omega arith)

-- The counter of the repository's own test: 2^64 - 6 more than 10 is 4.
increment_lem_example :
    ((run recent (InMemory.increment key 18446744073709551610) (holding (int (pos 10)) 2000)).0
      ≡ returns (4, none))
    × (recent.peek
          (run recent (InMemory.increment key 18446744073709551610) (holding (int (pos 10)) 2000)).1
          key
        ≡ some (entry (int (pos 4)) (pos 900) (pos 2000)))
unfolding add64 to_int64 to_uint64
increment_lem_example =
    increment_lem recent (holding (int (pos 10)) 2000) key 18446744073709551610 (pos 10) (pos 900)
      (pos 2000) (omega arith) (omega arith) (held (int (pos 10)) 2000)
