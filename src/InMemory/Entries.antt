-- ===== src/InMemory/Entries.antt =====
-- What `Get` gives after a write (inmemory.go).
use go_cache.Prelude.{
  Option, none, ◌∙◌, ◌≡◌, ◌≢◌, refl, ◌∙◌, none, some, true, false, Bytes, inl, inr, ◌⊎◌,
}
use go_cache.Clock.{Instant}
use go_cache.Outcome.{Outcome, returns, panics}
use go_cache.Error.{cache_miss, not_support}
use go_cache.Value.{
  Value, string, int, response, GenericCacheEntry, of_entry, GoType, string_type, int_type,
  response_type, entry_type, type_of, Target, pointer, expired,
}
use go_cache.Lru.Run.{run-lru_get}
use go_cache.Lru.{Arc, run}
use go_cache.InMemory
use go_cache.InMemory.{
  Got, got, failed, write_out, expiry, new_entry, forever, assert_string, assert_int,
  assert_response,
}

-- What a caller sees of a live entry: the entry itself, its data if they have the type that the
-- pointer is for, a panic if they have another, and an error if the pointer is for no type that
-- the store knows.
abbrev pub SeesData : GoType → Value → Outcome Got → Type 0
SeesData t v r = ((type_of v ≡ t) × (r ≡ returns (got v))) ⊎ ((type_of v ≢ t) × (r ≡ panics))

abbrev pub Sees : Target → GenericCacheEntry → Outcome Got → Type 0
Sees (pointer entry_type) e r = r ≡ returns (got (of_entry e))
Sees (pointer string_type) e r = SeesData string_type e.payload r
Sees (pointer int_type) e r = SeesData int_type e.payload r
Sees (pointer response_type) e r = SeesData response_type e.payload r
Sees _ e r = r ≡ returns (failed not_support)

module _ (arc : Arc) where
  open arc use {Lru, peek}

  assert_string-Sees :
      (v : Value) (l : Lru) → SeesData string_type v (run arc (assert_string v) l).0
  unfolding run
  assert_string-Sees (string s) l = inl (refl, refl)
  assert_string-Sees v l = inr (λ e. cc, refl)

  assert_int-Sees : (v : Value) (l : Lru) → SeesData int_type v (run arc (assert_int v) l).0
  unfolding run
  assert_int-Sees (int s) l = inl (refl, refl)
  assert_int-Sees v l = inr (λ e. cc, refl)

  assert_response-Sees :
      (v : Value) (l : Lru) → SeesData response_type v (run arc (assert_response v) l).0
  unfolding run
  assert_response-Sees (response s) l = inl (refl, refl)
  assert_response-Sees v l = inr (λ e. cc, refl)

  write_out-Sees :
      (t : Target) (e : GenericCacheEntry) (l : Lru) → Sees t e (run arc (write_out t e) l).0
  unfolding run
  write_out-Sees (pointer string_type) e l = assert_string-Sees e.payload l
  write_out-Sees (pointer int_type) e l = assert_int-Sees e.payload l
  write_out-Sees (pointer response_type) e l = assert_response-Sees e.payload l
  write_out-Sees (pointer entry_type) e l = refl
  write_out-Sees t e l = refl

  -- The cache after an assertion is the cache before it.
  write_out-keeps :
      (t : Target) (e : GenericCacheEntry) (l : Lru) → (run arc (write_out t e) l).1 ≡ l
  unfolding run
  write_out-keeps (pointer string_type) e l = by_payload e.payload
    where
      by_payload : (v : Value) → (run arc (assert_string v) l).1 ≡ l
      by_payload (string s) = refl
      by_payload v = refl
  write_out-keeps (pointer int_type) e l = by_payload e.payload
    where
      by_payload : (v : Value) → (run arc (assert_int v) l).1 ≡ l
      by_payload (int s) = refl
      by_payload v = refl
  write_out-keeps (pointer response_type) e l = by_payload e.payload
    where
      by_payload : (v : Value) → (run arc (assert_response v) l).1 ≡ l
      by_payload (response s) = refl
      by_payload v = refl
  write_out-keeps t e l = refl

  module _ (l : Lru) (key : Bytes) (t : Target) (now : Instant) where
    get_run :
        (o : Option Value)
        → peek l key ≡ o
        → run arc (InMemory.get key t now) l
          ≡ run arc (InMemory.get_found key t now o) (arc.get l key).1
    unfolding InMemory.get
    get_run o h = run-lru_get arc l key (InMemory.get_found key t now) o h

    -- A key that is not cached is a miss.
    pub get_miss :
        peek l key ≡ none → (run arc (InMemory.get key t now) l).0 ≡ returns (failed cache_miss)
    unfolding InMemory.get_found run
    get_miss h = rw (get_run none h) refl

    -- An entry that has expired is a miss, and is dropped from the cache.
    pub get_expired :
        (e : GenericCacheEntry)
        → peek l key ≡ some (of_entry e)
        → expired e now ≡ true
        → ((run arc (InMemory.get key t now) l).0 ≡ returns (failed cache_miss))
          × (peek (run arc (InMemory.get key t now) l).1 key ≡ none)
    unfolding InMemory.get_found run
    get_expired e h x =
        rw (get_run (some (of_entry e)) h)
          (rw (x, InMemory.get_found) (refl, arc.peek-remove_self (arc.get l key).1 key))

    -- A live entry is seen through the pointer, and stays.
    pub get_live :
        (e : GenericCacheEntry)
        → peek l key ≡ some (of_entry e)
        → expired e now ≡ false
        → Sees t e (run arc (InMemory.get key t now) l).0
          × (peek (run arc (InMemory.get key t now) l).1 key ≡ some (of_entry e))
    unfolding InMemory.get_found run
    get_live e h x = rw (get_run (some (of_entry e)) h) (
        rw (x, InMemory.get_found)
          (
            write_out-Sees t e (arc.get l key).1,
            rw (write_out-keeps t e (arc.get l key).1) (arc.peek-get l key key ∙ h),
          ))
