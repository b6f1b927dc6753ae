-- ===== src/Store/Refines.antt =====
-- A `GenericCache` that does not encrypt (generic.go), over the in-memory store (inmemory.go): its
-- methods that name a key, against the reference on cells.
pub mod Agree
pub mod Leaves
use go_cache.Prelude.{ℕ, zero, Option, none, some, List, [], ◌∷◌, Bytes}
use go_cache.Prelude.Int.{ℤ, pos}
use go_cache.Clock.{Instant}
use go_cache.Outcome.{Outcome}
use go_cache.Value.{
  Value, nil, entry, GoType, string_type, int_type, response_type, entry_type, Target, pointer,
}
use go_cache.Lru.{Arc}
use go_cache.InMemory.Reference.{KeyCall, Reply, read, done, counted}
use go_cache.Store.{CacheStore, M, ◌>>=◌, pure}
use go_cache.Store.Local.{World, local}
use go_cache.Generic.{Codec, GenericCache, settings}
use go_cache.Generic.Writes
use go_cache.Generic.Reads

-- The types of pointers through which the in-memory store writes.
pub data Readable : Type 0 where
  a_string an_int a_response an_entry : Readable

abbrev pub target_of : Readable → Target
target_of a_string = pointer string_type
target_of an_int = pointer int_type
target_of a_response = pointer response_type
target_of an_entry = pointer entry_type

-- A method of the interface of a store that names a key. A pointer to an entry points to a zero
-- one before a `get`.
pub data Call : Type 0 where
  get : Readable → Call
  set add replace : Value → ℤ → Call
  delete : Call
  increment decrement : ℕ → Call

abbrev pub zero_of : Readable → Value
zero_of an_entry = entry nil (pos 0) (pos 0)
zero_of _ = nil

-- The expiry that a call is given, or the default of the cache in the place of 0.
abbrev pub given_or : ℤ → ℤ → ℤ
given_or (pos zero) default_exp = default_exp
given_or exp default_exp = exp

-- The call of the store that a call comes to.
abbrev pub as_key_call : ℤ → Call → Instant → KeyCall
as_key_call default_exp (get r) now = KeyCall.get (target_of r) now
as_key_call default_exp (set v exp) now = KeyCall.set v (given_or exp default_exp) now
as_key_call default_exp (add v exp) now = KeyCall.add v (given_or exp default_exp) now
as_key_call default_exp (replace v exp) now = KeyCall.replace v (given_or exp default_exp) now
as_key_call default_exp delete now = KeyCall.delete
as_key_call default_exp (increment n) now = KeyCall.increment n
as_key_call default_exp (decrement n) now = KeyCall.decrement n

abbrev pub replying : {W A : Type 0} → (A → Reply) → M W A → M W Reply
replying f m = m >>= λ a. pure (f a)

module _ (arc : Arc) (d : ℤ) (k : Codec) (c : GenericCache (Unit {0})) where
  abbrev pub store : CacheStore
  store = local arc d

  -- The method of the cache.
  unfoldable pub answer : Bytes → Call → Instant → M (World arc) Reply
  unfolding Reads.get Writes.set Writes.add Writes.replace Writes.delete Writes.increment
      Writes.decrement
  answer key (get r) now = replying read (Reads.get k store c key (target_of r) (zero_of r))
  answer key (set v exp) now = replying done (Writes.set store k c key v exp now)
  answer key (add v exp) now = replying done (Writes.add store c key v exp)
  answer key (replace v exp) now = replying done (Writes.replace store c key v exp)
  answer key delete now = replying done (Writes.delete store c key)
  answer key (increment n) now = replying counted (Writes.increment store c key n)
  answer key (decrement n) now = replying counted (Writes.decrement store c key n)

  -- Calls one after the other, the last first, each with what the clock reads then.
  abbrev pub run_calls :
      List (Bytes × Call × Instant) → arc.Lru → List (Bytes × KeyCall × Outcome Reply) × arc.Lru
  run_calls [] l = ([], l)
  run_calls ((key, call, now) ∷ earlier) l =
      let (replies, l1) = run_calls earlier l in
      let (r, w) = answer key call now (record { lru = l1; now = now }) in
      ((key, as_key_call (settings c).default_exp call now, r) ∷ replies, w.lru)
