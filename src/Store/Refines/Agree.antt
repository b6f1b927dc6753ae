-- ===== src/Store/Refines/Agree.antt =====
-- The methods of a cache over the in-memory store agree with the reference (generic.go,
-- inmemory.go).
use go_cache.Prelude.{
  zero, suc, arith, ◌≡◌, refl, sym, ap, ◌∙◌, subst, Option, none, some, List, [], ◌∷◌, false, Bytes,
}
use go_cache.Prelude.Int.{ℤ, pos, negsuc}
use go_cache.Clock.{Instant}
use go_cache.Outcome.{Outcome, returns, panics, ok}
use go_cache.Error.{Error}
use go_cache.Value.{Value, entry}
use go_cache.Lru.{Arc, Prog}
use go_cache.Lru.Run.{HoldsEntries}
use go_cache.InMemory
use go_cache.InMemory.{Got, got, failed, Count}
use go_cache.InMemory.Reference
use go_cache.InMemory.Reference.{KeyCall, Reply, read, done, counted, History, transcript}
use go_cache.InMemory.Reference.Moved.{view}
use go_cache.InMemory.Reference.Refines as KeyCalls
use go_cache.InMemory.Reference.Refines.{run_calls-History}
use go_cache.Store.{M, after, pure}
use go_cache.Store.Local.{World, alone, local}
use go_cache.Store.Refines.{
  given_or, a_string, an_int, a_response, an_entry, target_of, Call, as_key_call, answer, run_calls,
  zero_of,
}
use go_cache.Generic.{Codec, GenericCache, settings, exp_or_default}
use go_cache.Generic.Writes
use go_cache.Generic.Reads
use go_cache.Generic.Reads.{missed, read_entry}
use go_cache.Store.Refines.Leaves.{
  Leaves, identity-Leaves, alone-Leaves, missed-get, as_miss-delete, counted-count,
}

after_twice :
    {W A B C : Type 0} (r : Outcome A × W) (g : A → B) (f : B → C)
    → after (after r (λ a. pure (g a))) (λ b. pure (f b)) ≡ after r (λ a. pure (f (g a)))
after_twice (returns a, w) g f = refl
after_twice (panics, w) g f = refl

after_same :
    {W A B : Type 0} (r : Outcome A × W) (f f' : A → M W B)
    → ((a : A) → f a ≡ f' a)
    → after r f ≡ after r f'
after_same (returns a, w) f f' h = ap (λ m. m w) (h a)
after_same (panics, w) f f' h = refl

exp_or_default-given : (exp d : ℤ) → exp_or_default exp d ≡ given_or exp d
exp_or_default-given (pos zero) d = refl
exp_or_default-given (pos (suc n)) d = ground arith
exp_or_default-given (negsuc n) d = ground arith

module _ (arc : Arc) (d : ℤ) (k : Codec) (c : GenericCache (Unit {0}))
    (cached : (settings c).cache ≡ some tt) (off : (settings c).encrypt_data ≡ false) where
  read_plain :
      (initial : Value) (g : Got)
      → read_entry k (local arc d) (settings c) initial g ≡ pure (missed g)
  unfolding read_entry
  read_plain initial g = by_error g.written g.error
    where
      by_error :
          (v : Option Value) (e : Option Error)
          → read_entry k (local arc d) (settings c) initial (record { written = v; error = e })
            ≡ pure (missed (record { written = v; error = e }))
      by_error v none = rw off refl
      by_error v (some e) = refl

  seal_plain :
      (v : Value) (exp : ℤ) (now : Instant)
      → Writes.seal (local arc d) k (settings c) v exp now ≡ pure (ok v)
  unfolding Writes.seal
  seal_plain (entry p a x) exp now = rw off refl
  seal_plain v exp now = refl

  module _ (key : Bytes) (now : Instant) (l : arc.Lru) where
    abbrev world : World arc
    world = record { lru = l; now = now }

    -- A method with a value of the store's result.
    agrees :
        {A : Type 0} (f : A → Reply) (g : A → A) (p : Prog A)
        → Leaves g p
        → after (after (alone arc p world) (λ a. pure (g a))) (λ a. pure (f a))
          ≡ alone arc (Reference.replying f p) world
    agrees f g p h = after_twice (alone arc p world) g f ∙ alone-Leaves arc f g p now l h

    whole :
        (p : Prog (Option Error))
        → after (alone arc p world) (λ a. pure (done a))
          ≡ alone arc (Reference.replying done p) world
    whole p = alone-Leaves arc done (λ a. a) p now l (identity-Leaves p)

    answer-agrees :
        (call : Call)
        → answer arc d k c key call now world
          ≡ alone arc (Reference.answer d key (as_key_call (settings c).default_exp call now)) world
    unfolding answer Reference.answer Reads.get Reads.request Writes.set Writes.seal Writes.add
        Writes.replace Writes.delete Writes.increment Writes.decrement InMemory.increment
        InMemory.decrement
    answer-agrees (Call.get an_entry) =
        rw (cached, Reads.get)
          (ap (λ (r : Outcome Got × World arc). after r (λ a. pure (read a)))
              (after_same (alone arc (InMemory.get key (target_of an_entry) now) world) _ _
                (read_plain (zero_of an_entry)))
            ∙ agrees read missed (InMemory.get key (target_of an_entry) now)
                (missed-get an_entry key now))
    answer-agrees (Call.get a_string) =
        rw (cached, Reads.get)
          (agrees read missed (InMemory.get key (target_of a_string) now)
            (missed-get a_string key now))
    answer-agrees (Call.get an_int) =
        rw (cached, Reads.get)
          (agrees read missed (InMemory.get key (target_of an_int) now) (missed-get an_int key now))
    answer-agrees (Call.get a_response) =
        rw (cached, Reads.get)
          (agrees read missed (InMemory.get key (target_of a_response) now)
            (missed-get a_response key now))
    answer-agrees (Call.set v exp) =
        rw (cached, Writes.set)
          (rw (seal_plain v exp now, exp_or_default-given exp (settings c).default_exp)
            (whole (InMemory.set d key v (given_or exp (settings c).default_exp) now)))
    answer-agrees (Call.add v exp) =
        rw (cached, Writes.add)
          (rw (exp_or_default-given exp (settings c).default_exp)
            (whole (InMemory.add d key v (given_or exp (settings c).default_exp) now)))
    answer-agrees (Call.replace v exp) =
        rw (cached, Writes.replace)
          (rw (exp_or_default-given exp (settings c).default_exp)
            (whole (InMemory.replace d key v (given_or exp (settings c).default_exp) now)))
    answer-agrees Call.delete =
        rw (cached, Writes.delete)
          (agrees done (Writes.as_miss (local arc d)) (InMemory.delete key)
            (as_miss-delete (local arc d) key))
    answer-agrees (Call.increment n) =
        rw (cached, Writes.increment)
          (agrees counted (Writes.counted (local arc d)) (InMemory.increment key n)
            (counted-count (local arc d) InMemory.incremented key n))
    answer-agrees (Call.decrement n) =
        rw (cached, Writes.decrement)
          (agrees counted (Writes.counted (local arc d)) (InMemory.decrement key n)
            (counted-count (local arc d) InMemory.decremented key n))

  as_key_calls : List (Bytes × Call × Instant) → List (Bytes × KeyCall)
  as_key_calls [] = []
  as_key_calls ((key, call, now) ∷ earlier) =
      (key, as_key_call (settings c).default_exp call now) ∷ as_key_calls earlier

  run_calls-agree :
      (calls : List (Bytes × Call × Instant)) (l : arc.Lru)
      → run_calls arc d k c calls l ≡ KeyCalls.run_calls arc d (as_key_calls calls) l
  unfolding as_key_calls
  run_calls-agree [] l = refl
  run_calls-agree ((key, call, now) ∷ earlier) l =
      rw (run_calls-agree earlier l)
        (rw (answer-agrees key now (KeyCalls.run_calls arc d (as_key_calls earlier) l).1 call) refl)

  -- Calls of the methods of a cache that does not encrypt, over the in-memory store, on keys, run
  -- one after the other on a store of entries (the last stands first in the list), are a history
  -- of the reference of the store, from what the keys held to what they hold then: each call with
  -- the expiry that it is given or the default of the cache, and the replies those of the
  -- reference.
  pub cache_calls-History :
      (calls : List (Bytes × Call × Instant)) (l : arc.Lru)
      → HoldsEntries arc l
      → (h : History d (view arc l) (view arc (run_calls arc d k c calls l).1)) × (transcript h
          ≡ (run_calls arc d k c calls l).0)
  cache_calls-History calls l e =
      let (h, t, _) = run_calls-History arc d (as_key_calls calls) l e in
      subst
        (λ (r : List (Bytes × KeyCall × Outcome Reply) × arc.Lru).
          (h : History d (view arc l) (view arc r.1)) × (transcript h ≡ r.0))
        (sym (run_calls-agree calls l)) (h, t)
