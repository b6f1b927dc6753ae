-- ===== src/InMemory/Calls.antt =====
-- Every method of the store of inmemory.go as a request, the sweep of the janitor among them, and
-- what holds of all of them, alone or interleaved.
use go_cache.Prelude.{ℕ, suc, none, some, List, [], ◌∷◌, Bool, true, false, Bytes, if◌then◌else◌}
use go_cache.Prelude.Int.{ℤ}
use go_cache.Clock.{Instant}
use go_cache.Value.{
  Value, int, entry, GenericCacheEntry, of_entry, IsEntry, string_type, int_type, response_type,
  Target, pointer, expired,
}
use go_cache.Lru.{Arc, Prog, ret, ◌>>=◌}
use go_cache.Lru.Run.{Keeps, AnEntry, IsSafe, HoldsEntries, >>=-Keeps}
use go_cache.Lru.Threads.{Threads, AllKeep, AreSafe, interleave, interleave-AllKeep}
use go_cache.InMemory
use go_cache.InMemory.{write_out, count_to, count, sweep, new_entry, incremented, decremented}

pub data Call : Type 0 where
  get : Bytes → Target → Instant → Call
  set add replace : Bytes → Value → ℤ → Instant → Call
  update : Bytes → GenericCacheEntry → Call
  delete : Bytes → Call
  increment decrement : Bytes → ℕ → Call
  keys len flush : Call
  delete_expired : (ℕ → Instant) → Call

-- The result is dropped.
abbrev pub done : {A : Type 0} → Prog A → Prog (Unit {0})
done p = p >>= λ _. ret tt

-- The method that a request names, on a store with the given `DefaultExp`.
unfoldable pub perform : ℤ → Call → Prog (Unit {0})
unfolding InMemory.get InMemory.set InMemory.add InMemory.replace InMemory.update InMemory.delete
    InMemory.keys InMemory.len InMemory.flush InMemory.increment InMemory.decrement
    InMemory.delete_expired
perform d (get key value now) = done (InMemory.get key value now)
perform d (set key value exp now) = done (InMemory.set d key value exp now)
perform d (add key value exp now) = done (InMemory.add d key value exp now)
perform d (replace key value exp now) = done (InMemory.replace d key value exp now)
perform d (update key e) = done (InMemory.update key e)
perform d (delete key) = done (InMemory.delete key)
perform d (increment key n) = done (InMemory.increment key n)
perform d (decrement key n) = done (InMemory.decrement key n)
perform d keys = done InMemory.keys
perform d len = done InMemory.len
perform d flush = done InMemory.flush
perform d (delete_expired clock) = InMemory.delete_expired clock

-- A pointer through which `Get` writes the entry itself, or a type that it refuses: it makes no
-- assertion on the type of the data.
abbrev pub IsUnasserted : Target → Type 0
IsUnasserted (pointer string_type) = ⊥
IsUnasserted (pointer int_type) = ⊥
IsUnasserted (pointer response_type) = ⊥
IsUnasserted _ = Unit {0}

abbrev pub AsksNoType : Call → Type 0
AsksNoType (get key value now) = IsUnasserted value
AsksNoType _ = Unit {0}

-- One goroutine for each request.
unfoldable pub goroutines : ℤ → List Call → Threads
unfolding perform
goroutines d [] = []
goroutines d (c ∷ cs) = perform d c ∷ goroutines d cs

if-Keeps :
    (P : Bytes → Value → Type 0) {A : Type 0} (b : Bool) (p q : Prog A)
    → Keeps P p
    → Keeps P q
    → Keeps P (if b then p else q)
if-Keeps P true p q h k = h
if-Keeps P false p q h k = k

-- An invariant of the cached values that has entries only.
module _ (P : Bytes → Value → Type 0) (entries : (k : Bytes) (v : Value) → P k v → IsEntry v) where
  -- What a request must be given for the invariant to be kept: entries that it allows, and
  -- assertions that it makes true.
  abbrev pub Fits : ℤ → Call → Type 0
  Fits d (get key t now) = (e : GenericCacheEntry) → P key (of_entry e) → Keeps P (write_out t e)
  Fits d (set key value exp now) = P key (of_entry (new_entry d value exp now))
  Fits d (add key value exp now) = P key (of_entry (new_entry d value exp now))
  Fits d (replace key value exp now) = P key (of_entry (new_entry d value exp now))
  Fits d (update key e) = P key (of_entry e)
  Fits d (increment key n) =
      (c a x : ℤ) → P key (entry (int c) a x) → P key (entry (int (incremented c n)) a x)
  Fits d (decrement key n) =
      (c a x : ℤ) → P key (entry (int c) a x) → P key (entry (int (decremented c n)) a x)
  Fits d _ = Unit {0}

  get-Keeps :
      (key : Bytes) (t : Target) (now : Instant)
      → ((e : GenericCacheEntry) → P key (of_entry e) → Keeps P (write_out t e))
      → Keeps P (InMemory.get key t now)
  unfolding InMemory.get
  get-Keeps key t now h = elim [
    | none ↦ λ i. tt
    | some (entry d a x) ↦ λ i. if-Keeps P (expired _ now) _ _ tt (h _ i)
    | some v ↦ λ i. absurd (entries key v i)
  ]

  count_to-Keeps :
      (op : ℤ → ℕ → ℤ) (key : Bytes) (n : ℕ)
      → ((c a x : ℤ) → P key (entry (int c) a x) → P key (entry (int (op c n)) a x))
      → (e : GenericCacheEntry) → P key (of_entry e)
      → Keeps P (count_to op key n e)
  unfolding count_to
  count_to-Keeps op key n h e i = by_payload e.payload i
    where
      by_payload :
          (v : Value)
          → P key (entry v e.time_added e.expires_at)
          → Keeps P (count_to op key n (record e { payload = v }))
      by_payload (int c) j = (h c e.time_added e.expires_at j, tt)
      by_payload _ j = tt

  count-Keeps :
      (op : ℤ → ℕ → ℤ) (key : Bytes) (n : ℕ)
      → ((c a x : ℤ) → P key (entry (int c) a x) → P key (entry (int (op c n)) a x))
      → Keeps P (count op key n)
  unfolding count
  count-Keeps op key n h = elim [
    | none ↦ λ i. tt
    | some (entry d a x) ↦ λ i. count_to-Keeps op key n h _ i
    | some v ↦ λ i. absurd (entries key v i)
  ]

  pub sweep-Keeps : (clock : ℕ → Instant) (i : ℕ) (ks : List Bytes) → Keeps P (sweep clock i ks)
  unfolding sweep
  sweep-Keeps clock i [] = tt
  sweep-Keeps clock i (k ∷ ks) = elim [
    | none ↦ λ _. sweep-Keeps clock (suc i) ks
    | some (entry d a x) ↦ λ _.
        if-Keeps P (expired _ (clock i)) _ _ (sweep-Keeps clock (suc i) ks)
          (sweep-Keeps clock (suc i) ks)
    | some v ↦ λ h. absurd (entries k v h)
  ]

  perform-Keeps : (d : ℤ) (c : Call) → Fits d c → Keeps P (perform d c)
  unfolding perform
  perform-Keeps d (get key value now) h =
      >>=-Keeps P (InMemory.get key value now) _ (get-Keeps key value now h) (λ _. tt)
  perform-Keeps d (set key value exp now) h = (h, tt)
  perform-Keeps d (add key value exp now) h = elim [ none ↦ λ i. (h, tt) | some v ↦ λ i. tt ]
  perform-Keeps d (replace key value exp now) h = elim [ none ↦ λ i. tt | some v ↦ λ i. (h, tt) ]
  perform-Keeps d (update key e) h = elim [ none ↦ λ i. tt | some v ↦ λ i. (h, tt) ]
  perform-Keeps d (delete key) h = elim [ none ↦ λ i. tt | some v ↦ λ i. tt ]
  perform-Keeps d (increment key n) h =
      >>=-Keeps P (InMemory.increment key n) _ (count-Keeps incremented key n h) (λ _. tt)
  perform-Keeps d (decrement key n) h =
      >>=-Keeps P (InMemory.decrement key n) _ (count-Keeps decremented key n h) (λ _. tt)
  perform-Keeps d keys h = λ ks. tt
  perform-Keeps d len h = λ n. tt
  perform-Keeps d flush h = tt
  perform-Keeps d (delete_expired clock) h = λ ks. sweep-Keeps clock 0 ks

  abbrev pub AllFit : ℤ → List Call → Type 0
  AllFit d [] = Unit {0}
  AllFit d (c ∷ cs) = Fits d c × AllFit d cs

  pub goroutines-AllKeep : (d : ℤ) (cs : List Call) → AllFit d cs → AllKeep P (goroutines d cs)
  unfolding goroutines
  goroutines-AllKeep d [] h = tt
  goroutines-AllKeep d (c ∷ cs) h = (perform-Keeps d c h.0, goroutines-AllKeep d cs h.1)

pub sweep-IsSafe : (clock : ℕ → Instant) (i : ℕ) (ks : List Bytes) → IsSafe (sweep clock i ks)
sweep-IsSafe = sweep-Keeps AnEntry (λ k v h. h)

abbrev pub AskNoTypes : List Call → Type 0
AskNoTypes [] = Unit {0}
AskNoTypes (c ∷ cs) = AsksNoType c × AskNoTypes cs

write_out-IsSafe : (t : Target) (e : GenericCacheEntry) → IsUnasserted t → IsSafe (write_out t e)
write_out-IsSafe (pointer string_type) e h = absurd h
write_out-IsSafe (pointer int_type) e h = absurd h
write_out-IsSafe (pointer response_type) e h = absurd h
write_out-IsSafe t e h = tt

AsksNoType-Fits : (d : ℤ) (c : Call) → AsksNoType c → Fits AnEntry (λ k v h. h) d c
AsksNoType-Fits d (get key value now) h = λ e i. write_out-IsSafe value e h
AsksNoType-Fits d (set key value exp now) h = tt
AsksNoType-Fits d (add key value exp now) h = tt
AsksNoType-Fits d (replace key value exp now) h = tt
AsksNoType-Fits d (update key e) h = tt
AsksNoType-Fits d (increment key n) h = λ c a x i. tt
AsksNoType-Fits d (decrement key n) h = λ c a x i. tt
AsksNoType-Fits d _ h = tt

AskNoTypes-AllFit : (d : ℤ) (cs : List Call) → AskNoTypes cs → AllFit AnEntry (λ k v h. h) d cs
AskNoTypes-AllFit d [] h = tt
AskNoTypes-AllFit d (c ∷ cs) h = (AsksNoType-Fits d c h.0, AskNoTypes-AllFit d cs h.1)

-- Requests in any number, each in a goroutine of its own and interleaved in any order, on a cache
-- that holds entries only, leave entries only and never fail an assertion on a cached value; a
-- `Get` through a typed pointer, which also asserts the type of the data, is not among them.
pub interleaved_safe :
    (arc : Arc) (d : ℤ) (cs : List Call) (is : List ℕ) (l : arc.Lru)
    → AskNoTypes cs
    → HoldsEntries arc l
    → AreSafe (interleave arc is (goroutines d cs) l).0
      × HoldsEntries arc (interleave arc is (goroutines d cs) l).1
interleaved_safe arc d cs is l h e =
    interleave-AllKeep arc AnEntry is (goroutines d cs) l
      (goroutines-AllKeep AnEntry (λ k v i. i) d cs (AskNoTypes-AllFit d cs h)) e
