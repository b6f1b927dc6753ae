-- ===== src/InMemory/Reference.antt =====
-- What the methods of inmemory.go that name a key promise of that key: a reference definition on
-- one cell, which holds an entry or nothing, with the replies of the methods.
pub mod Moved
pub mod Refines
use go_cache.Prelude.{
  ℕ, ◌≡◌, ◌≢◌, ◌⊎◌, List, [], ◌∷◌, Option, none, some, Bool, Bytes, if◌then◌else◌,
}
use go_cache.Prelude.Int.{ℤ, pos}
use go_cache.Word.{to_uint64}
use go_cache.Clock.{Instant}
use go_cache.Outcome.{Outcome, returns, panics}
use go_cache.Error.{Error, cache_miss, not_stored, not_support}
use go_cache.Value.{
  Value, string, int, response, entry, GenericCacheEntry, of_entry, string_type, int_type,
  response_type, entry_type, Target, pointer, expired,
}
use go_cache.Lru.{Prog, ret, ◌>>=◌}
use go_cache.InMemory
use go_cache.InMemory.{Got, got, failed, Count, new_entry, incremented, decremented}

pub data KeyCall : Type 0 where
  get : Target → Instant → KeyCall
  set add replace : Value → ℤ → Instant → KeyCall
  update : GenericCacheEntry → KeyCall
  delete : KeyCall
  increment decrement : ℕ → KeyCall

pub data Reply : Type 0 where
  read : Got → Reply
  done : Option Error → Reply
  counted : Count → Reply

abbrev pub replying : {A : Type 0} → (A → Reply) → Prog A → Prog Reply
replying f p = p >>= λ a. ret (f a)

-- The method, with its reply.
unfoldable pub answer : ℤ → Bytes → KeyCall → Prog Reply
unfolding InMemory.get InMemory.set InMemory.add InMemory.replace InMemory.update InMemory.delete
    InMemory.increment InMemory.decrement
answer d key (get t now) = replying read (InMemory.get key t now)
answer d key (set v exp now) = replying done (InMemory.set d key v exp now)
answer d key (add v exp now) = replying done (InMemory.add d key v exp now)
answer d key (replace v exp now) = replying done (InMemory.replace d key v exp now)
answer d key (update e) = replying done (InMemory.update key e)
answer d key delete = replying done (InMemory.delete key)
answer d key (increment n) = replying counted (InMemory.increment key n)
answer d key (decrement n) = replying counted (InMemory.decrement key n)

abbrev pub Cell : Type 0
Cell = Option GenericCacheEntry

-- What a caller is shown of a live entry.
abbrev pub shown : Target → GenericCacheEntry → Outcome Got
shown (pointer string_type) e = elim (e.payload) [
  | string s ↦ returns (got (string s))
  | _ ↦ panics
]
shown (pointer int_type) e = elim (e.payload) [ int n ↦ returns (got (int n)) | _ ↦ panics ]
shown (pointer response_type) e = elim (e.payload) [
  | response r ↦ returns (got (response r))
  | _ ↦ panics
]
shown (pointer entry_type) e = returns (got (of_entry e))
shown _ e = returns (failed not_support)

abbrev pub reading : Outcome Got → Outcome Reply
reading (returns g) = returns (read g)
reading panics = panics

-- A counter: its entry keeps its times, and loses its number only to the next one.
abbrev pub recount : (ℤ → ℤ) → GenericCacheEntry → Outcome Reply × Cell
recount f e = elim (e.payload) [
  | int n ↦ (returns (counted (to_uint64 (f n), none)), some (record e { payload = int (f n) }))
  | _ ↦ (returns (counted (0, some not_support)), some e)
]

abbrev pub count_cell : (ℤ → ℤ) → Cell → Outcome Reply × Cell
count_cell f none = (returns (counted (0, some cache_miss)), none)
count_cell f (some e) = recount f e

abbrev pub store : ℤ → Value → ℤ → Instant → Outcome Reply × Cell
store d v exp now = (returns (done none), some (new_entry d v exp now))

-- The reference: the reply of a call, and what the cell holds then. `Add`, `Replace`, `Update`,
-- `Delete` and the counters do not ask whether an entry has expired.
abbrev pub spec : ℤ → KeyCall → Cell → Outcome Reply × Cell
spec d (get t now) none = (returns (read (failed cache_miss)), none)
spec d (get t now) (some e) =
    if expired e now
    then (returns (read (failed cache_miss)), none)
    else (reading (shown t e), some e)
spec d (set v exp now) c = store d v exp now
spec d (add v exp now) none = store d v exp now
spec d (add v exp now) (some e) = (returns (done (some not_stored)), some e)
spec d (replace v exp now) none = (returns (done (some not_stored)), none)
spec d (replace v exp now) (some e) = store d v exp now
spec d (update new) none = (returns (done (some not_stored)), none)
spec d (update new) (some e) = (returns (done none), some new)
spec d delete none = (returns (done (some cache_miss)), none)
spec d delete (some e) = (returns (done none), none)
spec d (increment n) c = count_cell (λ (m : ℤ). incremented m n) c
spec d (decrement n) c = count_cell (λ (m : ℤ). decremented m n) c

-- The calls that add to the LRU cache, and so may make it evict other keys.
abbrev pub Adds : KeyCall → Type 0
Adds (get t now) = ⊥
Adds delete = ⊥
Adds _ = Unit {0}

-- A history of calls, with the key of each, from one state of the cells to another: each call
-- replies as the reference does, and changes its own cell as the reference does; an addition may
-- empty other cells.
pub data History (d : ℤ) (m : Bytes → Cell) : (Bytes → Cell) → Type 0 where
  start : History d m m
  call :
      {before after : Bytes → Cell}
      → History d m before
      → (key : Bytes) (c : KeyCall) (r : Outcome Reply) → r ≡ (spec d c (before key)).0
      → after key ≡ (spec d c (before key)).1
      → ((j : Bytes) → key ≢ j → (after j ≡ before j) ⊎ (Adds c × (after j ≡ none)))
      → History d m after

-- Its calls with their replies, the last first.
abbrev pub transcript :
    {d : ℤ} {m m' : Bytes → Cell} → History d m m' → List (Bytes × KeyCall × Outcome Reply)
transcript start = []
transcript (call h key c r p q e) = (key, c, r) ∷ transcript h
