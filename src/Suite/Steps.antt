-- ===== src/Suite/Steps.antt =====
-- One call of the in-memory store (inmemory.go) as a store of the tests of generic_test_store.go:
-- what it returns, and what its key holds then.
use go_cache.Prelude.{ℕ, ◌≡◌, refl, sym, ap, ◌∙◌, subst, Option, none, some, Bytes}
use go_cache.Prelude.Int.{ℤ}
use go_cache.Clock.{Instant}
use go_cache.Outcome.{Outcome, returns, panics}
use go_cache.Lru.{
  Arc, Prog, ret, panic, lru_get, lru_add, lru_remove, lru_keys, lru_len, lru_purge, run,
}
use go_cache.Lru.Run.{HoldsEntries}
use go_cache.Error.{Error}
use go_cache.Value.{Value, Target}
use go_cache.InMemory
use go_cache.InMemory.{Got, Count, new_entry}
use go_cache.InMemory.Reference.{
  KeyCall, get, set, add, delete, increment, decrement, Reply, read, done, counted, replying,
  answer, Cell, spec,
}
use go_cache.InMemory.Reference.Moved.{view}
use go_cache.InMemory.Reference.Refines.{answer_refines}
use go_cache.Store.Local.{World, alone}

abbrev map_outcome : {A B : Type 0} → (A → B) → Outcome A → Outcome B
map_outcome f (returns a) = returns (f a)
map_outcome f panics = panics

module _ (arc : Arc) where
  run-replying :
      {A : Type 0} (f : A → Reply) (p : Prog A) (l : arc.Lru)
      → run arc (replying f p) l ≡ (map_outcome f (run arc p l).0, (run arc p l).1)
  unfolding run
  run-replying f (ret a) l = refl
  run-replying f panic l = refl
  run-replying f (lru_get k g) l = run-replying f (g (arc.get l k).0) (arc.get l k).1
  run-replying f (lru_add k v p) l = run-replying f p (arc.add l k v)
  run-replying f (lru_remove k p) l = run-replying f p (arc.remove l k)
  run-replying f (lru_keys g) l = run-replying f (g (arc.keys l)) l
  run-replying f (lru_len g) l = run-replying f (g (arc.len l)) l
  run-replying f (lru_purge p) l = run-replying f p (arc.purge l)

  -- A call has returned a value, and left a world in which the key holds a cell.
  pub record Returned {A : Type 0} (o : Outcome A × World arc) (a : A) (key : Bytes) (c : Cell)
      (now : Instant) : Type 0 where
    pub world : World arc
    pub is_outcome : o ≡ (returns a, world)
    pub same_now : world.now ≡ now
    pub at_key : view arc world.lru key ≡ c
    pub holds : HoldsEntries arc world.lru

  abbrev IsInjective : {A : Type 0} → (A → Reply) → Type 0
  IsInjective {A} f = (a b : A) → f a ≡ f b → a ≡ b

  returned_value :
      {A : Type 0} (f : A → Reply)
      → IsInjective f
      → (o : Outcome A) (a : A) → map_outcome f o ≡ returns (f a)
      → o ≡ returns a
  returned_value f i (returns b) a h = ap returns (i b a (cc))
  returned_value f i panics a h = cc

  -- The method that a call of the reference stands for, on a key whose cell is known.
  returned :
      (d : ℤ) (key : Bytes) (call : KeyCall) {A : Type 0} (f : A → Reply)
      → IsInjective f
      → (p : Prog A) → answer d key call ≡ replying f p
      → (w : World arc) (c : Cell) → HoldsEntries arc w.lru
      → view arc w.lru key ≡ c
      → (a : A) → (spec d call c).0 ≡ returns (f a)
      → Returned (alone arc p w) a key (spec d call c).1 w.now
  returned d key call f i p same w c h v a s =
      let (replies, moved) = answer_refines arc d w.lru key h call in
      let both = ap (λ (q : Prog Reply). run arc q w.lru) same ∙ run-replying f p w.lru in
      let cache = ap (λ (r : Outcome Reply × arc.Lru). r.1) both in
      let out : map_outcome f (run arc p w.lru).0 ≡ returns (f a) =
        sym (ap (λ (r : Outcome Reply × arc.Lru). r.0) both)
        ∙ replies
        ∙ ap (λ (x : Cell). (spec d call x).0) v
        ∙ s in
      record {
        world = record w { lru = (run arc p w.lru).1 };
        is_outcome =
            ap (λ (o : Outcome _). (o, record w { lru = (run arc p w.lru).1 }))
              (returned_value f i (run arc p w.lru).0 a out);
        same_now = refl;
        at_key =
            sym (ap (λ (x : arc.Lru). view arc x key) cache)
            ∙ moved.at_key
            ∙ ap (λ (x : Cell). (spec d call x).1) v;
        holds = subst (HoldsEntries arc) cache moved.holds;
      }

  module _ (d : ℤ) (key : Bytes) (w : World arc) (c : Cell) (h : HoldsEntries arc w.lru)
      (v : view arc w.lru key ≡ c) where
    pub get_step :
        (t : Target) (g : Got)
        → (spec d (get t w.now) c).0 ≡ returns (read g)
        → Returned (alone arc (InMemory.get key t w.now) w) g key (spec d (get t w.now) c).1 w.now
    unfolding answer
    get_step t g s =
        returned d key (get t w.now) read (λ a b e. cc) (InMemory.get key t w.now) refl w c h v g s

    pub set_step :
        (x : Value) (exp : ℤ)
        → Returned
            (alone arc (InMemory.set d key x exp w.now) w)
            none
            key
            (some (new_entry d x exp w.now))
            w.now
    unfolding answer
    set_step x exp =
        returned d key (set x exp w.now) done (λ a b e. cc) (InMemory.set d key x exp w.now) refl w
          c h v none refl

    pub add_step :
        (x : Value) (exp : ℤ) (e : Option Error)
        → (spec d (add x exp w.now) c).0 ≡ returns (done e)
        → Returned
            (alone arc (InMemory.add d key x exp w.now) w)
            e
            key
            (spec d (add x exp w.now) c).1
            w.now
    unfolding answer
    add_step x exp e s =
        returned d key (add x exp w.now) done (λ a b q. cc) (InMemory.add d key x exp w.now) refl w
          c h v e s

    pub delete_step :
        (e : Option Error)
        → (spec d delete c).0 ≡ returns (done e)
        → Returned (alone arc (InMemory.delete key) w) e key (spec d delete c).1 w.now
    unfolding answer
    delete_step e s =
        returned d key delete done (λ a b q. cc) (InMemory.delete key) refl w c h v e s

    pub increment_step :
        (n : ℕ) (r : Count)
        → (spec d (increment n) c).0 ≡ returns (counted r)
        → Returned (alone arc (InMemory.increment key n) w) r key (spec d (increment n) c).1 w.now
    unfolding answer
    increment_step n r s =
        returned d key (increment n) counted (λ a b q. cc) (InMemory.increment key n) refl w c h v r
          s

    pub decrement_step :
        (n : ℕ) (r : Count)
        → (spec d (decrement n) c).0 ≡ returns (counted r)
        → Returned (alone arc (InMemory.decrement key n) w) r key (spec d (decrement n) c).1 w.now
    unfolding answer
    decrement_step n r s =
        returned d key (decrement n) counted (λ a b q. cc) (InMemory.decrement key n) refl w c h v r
          s
