-- ===== src/Generic/Methods/Calling.antt =====
-- The shapes of which the methods are made, with and without the count of calls (generic.go).
use go_cache.Prelude.{ℕ, Option, none, some, Bool, true, false, Bytes, if◌then◌else◌}
use go_cache.Outcome.{Outcome, returns, panics}
use go_cache.Error.{Error, no_cache}
use go_cache.InMemory.{failed, Count}
use go_cache.Store.{CacheStore, M, ◌>>=◌, pure, lift}
use go_cache.Generic.{GenericCache, settings}
use go_cache.Generic.Writes
use go_cache.Generic.Methods.{Reply, returning}
use go_cache.Generic.Methods.Counted.{
  counted, counting, CallsOnce, CallsNone, pure-CallsNone, throw-CallsNone, CallsNone-CallsOnce,
  CallsOnce-then, counting-CallsOnce, asserting-CallsOnce,
}

module _ (s : CacheStore) where
  open s use {World, Pool}

  pub returning-CallsOnce :
      {A : Type 0} (f : A → Reply) (m : M (World × ℕ) A) (m' : M World A)
      → CallsOnce m m'
      → CallsOnce (returning f m) (returning f m')
  returning-CallsOnce f m m' h = CallsOnce-then m m' _ _ h (λ a. pure-CallsNone (f a))

  -- One call of the store, and a value of its reply.
  pub one_call :
      {A B : Type 0} (m : M World A) (f : A → B)
      → CallsOnce (counting m >>= λ a. pure (f a)) (m >>= λ a. pure (f a))
  one_call m f =
      CallsOnce-then (counting m) m _ _ (counting-CallsOnce m) (λ a. pure-CallsNone (f a))

  -- `if c.Cache == nil { … }`, the type assertion, and the call.
  pub with_store-CallsOnce :
      {A : Type 0} (failed : A) (is : Pool → Bool) (o : Option Pool) (m : Pool → M (World × ℕ) A)
      (m' : Pool → M World A)
      → ((p : Pool) → CallsOnce (m p) (m' p))
      → CallsOnce (Writes.with_store (counted s) failed is o m) (Writes.with_store s failed is o m')
  with_store-CallsOnce failed is none m m' h = CallsNone-CallsOnce _ _ (pure-CallsNone failed)
  with_store-CallsOnce failed is (some p) m m' h = asserting-CallsOnce (is p) (m p) (m' p) (h p)

  -- With no store, and with one.
  pub by_cache :
      {A : Type 0} (o : Option Pool) (m : M (World × ℕ) A) (m' : M World A)
      (f : Pool → M (World × ℕ) A) (f' : Pool → M World A)
      → CallsOnce m m'
      → ((p : Pool) → CallsOnce (f p) (f' p))
      → CallsOnce (elim o [ none ↦ m | some p ↦ f p ]) (elim o [ none ↦ m' | some p ↦ f' p ])
  by_cache none m m' f f' h i = h
  by_cache (some p) m m' f f' h i = i p

  -- A result that may panic, and a value of it.
  pub lifted-CallsNone :
      {A B : Type 0} (o : Outcome A) (f : A → B)
      → CallsNone {W = World} (lift o >>= λ a. pure (f a)) (lift o >>= λ a. pure (f a))
  lifted-CallsNone (returns a) f = pure-CallsNone (f a)
  lifted-CallsNone panics f = throw-CallsNone

  pub if-CallsNone :
      {A : Type 0} (b : Bool) (m n : M (World × ℕ) A) (m' n' : M World A)
      → CallsNone m m'
      → CallsNone n n'
      → CallsNone (if b then m else n) (if b then m' else n')
  if-CallsNone true m n m' n' h i = h
  if-CallsNone false m n m' n' h i = i

  pub by_error :
      {A : Type 0} (o : Option Error) (f : Error → M (World × ℕ) A) (f' : Error → M World A)
      (m : M (World × ℕ) A) (m' : M World A)
      → ((e : Error) → CallsNone (f e) (f' e))
      → CallsNone m m'
      → CallsNone (elim o [ some e ↦ f e | none ↦ m ]) (elim o [ some e ↦ f' e | none ↦ m' ])
  by_error none f f' m m' h i = i
  by_error (some e) f f' m m' h i = h e

  pub counting_op-CallsOnce :
      (is : Pool → Bool) (op : Pool → Bytes → ℕ → M World Count) (c : GenericCache Pool)
      (key : Bytes) (n : ℕ)
      → CallsOnce
          (Writes.counting (counted s) is (λ p key n. counting (op p key n)) c key n)
          (Writes.counting s is op c key n)
  counting_op-CallsOnce is op c key n =
      with_store-CallsOnce (0, some no_cache) is ((settings c).cache) _ _
        (λ p. one_call (op p key n) (Writes.counted s))
