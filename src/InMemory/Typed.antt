-- ===== src/InMemory/Typed.antt =====
-- Keys that are used at one type each (inmemory.go): the assertions of `Get` on the type of the
-- data, and the 64 bits of counters and times.
use go_cache.Prelude.{ℕ, ◌+◌, ◌-◌, ◌≡◌, ◌⊎◌, inl, inr, List, [], ◌∷◌, Bytes, arith}
use go_cache.Prelude.Int.{ℤ}
use go_cache.Word.{to_int64, to_uint64, word_mod, sub64, add64, IsInt64, to_int64-IsInt64}
use go_cache.Clock.{Instant, to_unix, whole_seconds}
use go_cache.Value.{
  Value, string, int, response, entry, GenericCacheEntry, of_entry, IsEntry, GoType, string_type,
  int_type, response_type, type_of, Target, pointer,
}
use go_cache.Lru.{Arc, panic}
use go_cache.Lru.Run.{Keeps, HoldsAll}
use go_cache.Lru.Threads.{Threads, AllKeep, interleave, interleave-AllKeep}
use go_cache.InMemory.{
  write_out, new_entry, expiry, unwrap, assert_string, assert_int, assert_response, incremented,
  decremented,
}
use go_cache.InMemory.Calls.{Call, IsUnasserted, goroutines, Fits, AllFit, goroutines-AllKeep}

-- An `int` has 64 bits.
abbrev pub IsWord : Value → Type 0
IsWord (int n) = IsInt64 n
IsWord _ = Unit {0}

-- The data of an entry have the type of their key, and its times have 64 bits.
abbrev pub HasType : (Bytes → GoType) → Bytes → Value → Type 0
HasType τ key (entry d a x) = (type_of d ≡ τ key) × IsWord d × IsInt64 a × IsInt64 x
HasType τ key _ = ⊥

-- A request uses its key at the type of the key: it hands over data of that type, and reads
-- through a pointer to it, or through one that asks for no type of the data.
abbrev pub UsesType : (Bytes → GoType) → Call → Type 0
UsesType τ (Call.get key t now) = IsUnasserted t ⊎ (t ≡ pointer (τ key))
UsesType τ (Call.set key v exp now) = (type_of (unwrap v) ≡ τ key) × IsWord (unwrap v)
UsesType τ (Call.add key v exp now) = (type_of (unwrap v) ≡ τ key) × IsWord (unwrap v)
UsesType τ (Call.replace key v exp now) = (type_of (unwrap v) ≡ τ key) × IsWord (unwrap v)
UsesType τ (Call.update key e) = HasType τ key (of_entry e)
UsesType τ _ = Unit {0}

abbrev pub UseTypes : (Bytes → GoType) → List Call → Type 0
UseTypes τ [] = Unit {0}
UseTypes τ (c ∷ cs) = UsesType τ c × UseTypes τ cs

-- No goroutine is at a failed assertion.
abbrev pub NonePanics : Threads → Type 0
NonePanics [] = Unit {0}
NonePanics (panic ∷ ps) = ⊥
NonePanics (p ∷ ps) = NonePanics ps

AllKeep-NonePanics : (P : Bytes → Value → Type 0) (ps : Threads) → AllKeep P ps → NonePanics ps
AllKeep-NonePanics P [] h = tt
AllKeep-NonePanics P (panic ∷ ps) h = absurd h.0
AllKeep-NonePanics P (p ∷ ps) h = AllKeep-NonePanics P ps h.1

to_unix-IsInt64 : (now : Instant) → IsInt64 (to_unix now)
unfolding to_unix sub64
to_unix-IsInt64 now = to_int64-IsInt64 _

expiry-IsInt64 : (d exp : ℤ) (now : Instant) → IsInt64 (expiry d exp now)
unfolding expiry add64
expiry-IsInt64 d exp now = ground (
  arith,
  to_int64-IsInt64 (to_uint64 (to_unix now) + to_uint64 (whole_seconds d)),
  to_int64-IsInt64 (to_uint64 (to_unix now) + to_uint64 (whole_seconds exp)),
)

incremented-IsInt64 : (c : ℤ) (n : ℕ) → IsInt64 (incremented c n)
unfolding add64
incremented-IsInt64 c n = to_int64-IsInt64 _

decremented-IsInt64 : (c : ℤ) (n : ℕ) → IsInt64 (decremented c n)
unfolding sub64
decremented-IsInt64 c n =
    ground (arith, to_int64-IsInt64 (to_uint64 c + (word_mod - to_uint64 (to_int64 n))))

module _ (τ : Bytes → GoType) where
  HasType-IsEntry : (key : Bytes) (v : Value) → HasType τ key v → IsEntry v
  HasType-IsEntry key (entry d a x) h = tt
  HasType-IsEntry key v h = absurd h

  new_entry-HasType :
      (d : ℤ) (key : Bytes) (v : Value) (exp : ℤ) (now : Instant)
      → (type_of (unwrap v) ≡ τ key) × IsWord (unwrap v)
      → HasType τ key (of_entry (new_entry d v exp now))
  unfolding new_entry
  new_entry-HasType d key v exp now h = (h.0, h.1, to_unix-IsInt64 now, expiry-IsInt64 d exp now)

  assert_string-Keeps : (v : Value) → type_of v ≡ string_type → Keeps (HasType τ) (assert_string v)
  assert_string-Keeps (string s) h = tt
  assert_string-Keeps v h = cc

  assert_int-Keeps : (v : Value) → type_of v ≡ int_type → Keeps (HasType τ) (assert_int v)
  assert_int-Keeps (int n) h = tt
  assert_int-Keeps v h = cc

  assert_response-Keeps :
      (v : Value) → type_of v ≡ response_type → Keeps (HasType τ) (assert_response v)
  assert_response-Keeps (response r) h = tt
  assert_response-Keeps v h = cc

  -- A type that is asked for is the type of the data.
  asked : {key : Bytes} {t g : GoType} → ⊥ ⊎ (pointer t ≡ pointer (τ key)) → g ≡ τ key → g ≡ t
  asked (inl h) q = absurd h
  asked (inr p) q = cc

  -- Through a pointer to the type of the data, or one that asks for none, no assertion fails.
  write_out-Keeps :
      (key : Bytes) (t : Target) (e : GenericCacheEntry)
      → IsUnasserted t ⊎ (t ≡ pointer (τ key))
      → HasType τ key (of_entry e)
      → Keeps (HasType τ) (write_out t e)
  write_out-Keeps key (pointer string_type) e u h = assert_string-Keeps e.payload (asked u h.0)
  write_out-Keeps key (pointer int_type) e u h = assert_int-Keeps e.payload (asked u h.0)
  write_out-Keeps key (pointer response_type) e u h = assert_response-Keeps e.payload (asked u h.0)
  write_out-Keeps key t e u h = tt

  UsesType-Fits : (d : ℤ) (c : Call) → UsesType τ c → Fits (HasType τ) HasType-IsEntry d c
  UsesType-Fits d (Call.get key t now) h = λ e i. write_out-Keeps key t e h i
  UsesType-Fits d (Call.set key v exp now) h = new_entry-HasType d key v exp now h
  UsesType-Fits d (Call.add key v exp now) h = new_entry-HasType d key v exp now h
  UsesType-Fits d (Call.replace key v exp now) h = new_entry-HasType d key v exp now h
  UsesType-Fits d (Call.update key e) h = h
  UsesType-Fits d (Call.increment key n) h = λ c a x i. (i.0, incremented-IsInt64 c n, i.2, i.3)
  UsesType-Fits d (Call.decrement key n) h = λ c a x i. (i.0, decremented-IsInt64 c n, i.2, i.3)
  UsesType-Fits d _ h = tt

  UseTypes-AllFit :
      (d : ℤ) (cs : List Call) → UseTypes τ cs → AllFit (HasType τ) HasType-IsEntry d cs
  UseTypes-AllFit d [] h = tt
  UseTypes-AllFit d (c ∷ cs) h = (UsesType-Fits d c h.0, UseTypes-AllFit d cs h.1)

  -- Every key has a type. Requests that use their keys at these types, in goroutines of their own
  -- and interleaved in any order, fail no assertion on the type of a cached value or of its data,
  -- typed Gets included; and in the cache the data keep the types of their keys, and counters and
  -- times stay in 64 bits.
  pub interleaved-HasType :
      (arc : Arc) (d : ℤ) (cs : List Call) (is : List ℕ) (l : arc.Lru)
      → UseTypes τ cs
      → HoldsAll (HasType τ) arc l
      → NonePanics (interleave arc is (goroutines d cs) l).0
        × HoldsAll (HasType τ) arc (interleave arc is (goroutines d cs) l).1
  interleaved-HasType arc d cs is l h e =
      let end =
        interleave-AllKeep arc (HasType τ) is (goroutines d cs) l
          (goroutines-AllKeep (HasType τ) HasType-IsEntry d cs (UseTypes-AllFit d cs h)) e in
      (AllKeep-NonePanics (HasType τ) _ end.0, end.1)
