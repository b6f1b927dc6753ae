-- ===== src/InMemory/Races.antt =====
-- The methods of inmemory.go are several calls of the LRU library, and the lock is the library's:
-- what other goroutines do between two calls of a method is not seen by the method.
use go_cache.Prelude.{subst, ℕ, suc, List, ◌≡◌, refl, ◌∙◌, sym, none, some, true, [], ◌∷◌, Bytes}
use go_cache.Prelude.Int.{ℤ}
use go_cache.Clock.{Instant}
use go_cache.Value.{Value, int, entry, GenericCacheEntry, of_entry, Target, expired}
use go_cache.Lru.{Arc, Prog, ret, step, ◌>>=◌}
use go_cache.Lru.Run.{step-lru_get}
use go_cache.Error.{not_stored}
use go_cache.Lru.Threads.{Threads, turn, interleave}
use go_cache.InMemory
use go_cache.InMemory.{incremented, new_entry}
use go_cache.InMemory.Calls.{Call, perform, goroutines}

module _ (arc : Arc) (l : arc.Lru) (key : Bytes) where
  open arc use {peek}

  -- A `Get` that meets an expired entry removes whatever the key holds by then: a `Set` that runs
  -- between its two calls is done and has no effect.
  get_drops_set :
      (d exp : ℤ) (e : GenericCacheEntry) (t : Target) (v : Value) (now later : Instant)
      → peek l key ≡ some (of_entry e)
      → expired e now ≡ true
      → let r =
          interleave arc
            (0 ∷ 1 ∷ 0 ∷ [])
            (goroutines d (Call.get key t now ∷ Call.set key v exp later ∷ []))
            l in
        (r.0 ≡ ret tt ∷ ret tt ∷ []) × (peek r.1 key ≡ none)
  unfolding interleave turn goroutines InMemory.get InMemory.set step
  get_drops_set d exp e t v now later h x =
      subst
        (λ (p : Prog (Unit {0}) × arc.Lru).
          let r =
            interleave arc (1 ∷ 0 ∷ []) (p.0 ∷ perform d (Call.set key v exp later) ∷ []) p.1 in
          (r.0 ≡ ret tt ∷ ret tt ∷ []) × (peek r.1 key ≡ none))
        (sym (
          step-lru_get arc l key (λ o. InMemory.get_found key t now o >>= λ _. ret tt)
            (some (of_entry e)) h))
        (rw (x, InMemory.get_found) (refl, arc.peek-remove_self _ key))

  -- Two increments that both read before they write: the counter has one of the two sums.
  increment_loses_increment :
      (d : ℤ) (n m : ℕ) (c a x : ℤ)
      → peek l key ≡ some (entry (int c) a x)
      → let r =
          interleave arc
            (0 ∷ 1 ∷ 0 ∷ 1 ∷ [])
            (goroutines d (Call.increment key n ∷ Call.increment key m ∷ []))
            l in
        (r.0 ≡ ret tt ∷ ret tt ∷ []) × (peek r.1 key ≡ some (entry (int (incremented c m)) a x))
  unfolding interleave turn goroutines InMemory.increment step
  increment_loses_increment d n m c a x h =
      subst
        (λ (p : Prog (Unit {0}) × arc.Lru).
          let r =
            interleave arc (1 ∷ 0 ∷ 1 ∷ []) (p.0 ∷ perform d (Call.increment key m) ∷ []) p.1 in
          (r.0 ≡ ret tt ∷ ret tt ∷ []) × (peek r.1 key ≡ some (entry (int (incremented c m)) a x)))
        (sym (first l n h))
        (subst
          (λ (p : Prog (Unit {0}) × arc.Lru).
            let r =
              interleave arc (0 ∷ 1 ∷ [])
                ((InMemory.count_found incremented key n (some (entry (int c) a x)) >>= λ _. ret tt)
                  ∷ p.0
                  ∷ [])
                p.1 in
            (r.0 ≡ ret tt ∷ ret tt ∷ [])
            × (peek r.1 key ≡ some (entry (int (incremented c m)) a x)))
          (sym (first (arc.get l key).1 m (arc.peek-get l key key ∙ h)))
          (refl, arc.peek-add_self _ key _))
    where
      first :
          (l' : arc.Lru) (k : ℕ)
          → peek l' key ≡ some (entry (int c) a x)
          → step arc (perform d (Call.increment key k)) l' ≡ (
            InMemory.count_found incremented key k (some (entry (int c) a x)) >>= (λ _. ret tt),
            (arc.get l' key).1,
          )
      first l' k q =
          step-lru_get arc l' key (λ o. InMemory.count_found incremented key k o >>= λ _. ret tt)
            (some (entry (int c) a x)) q

  -- A sweep that meets an expired entry does the same, and goes on to the next key.
  sweep_drops_set :
      (d exp : ℤ) (e : GenericCacheEntry) (v : Value) (clock : ℕ → Instant) (i : ℕ)
      (rest : List Bytes) (later : Instant)
      → peek l key ≡ some (of_entry e)
      → expired e (clock i) ≡ true
      → let r =
          interleave arc
            (0 ∷ 1 ∷ 0 ∷ [])
            (InMemory.sweep clock i (key ∷ rest) ∷ perform d (Call.set key v exp later) ∷ [])
            l in
        (r.0 ≡ InMemory.sweep clock (suc i) rest ∷ ret tt ∷ []) × (peek r.1 key ≡ none)
  unfolding interleave turn perform InMemory.sweep InMemory.set step
  sweep_drops_set d exp e v clock i rest later h x =
      subst
        (λ (p : Prog (Unit {0}) × arc.Lru).
          let r =
            interleave arc (1 ∷ 0 ∷ []) (p.0 ∷ perform d (Call.set key v exp later) ∷ []) p.1 in
          (r.0 ≡ InMemory.sweep clock (suc i) rest ∷ ret tt ∷ []) × (peek r.1 key ≡ none))
        (sym (
          step-lru_get arc l key
            (InMemory.sweep_found key (clock i) (InMemory.sweep clock (suc i) rest))
            (some (of_entry e)) h))
        (rw (x, InMemory.sweep_found) (refl, arc.peek-remove_self _ key))

  -- Two additions that both look before they store: the second stores over the first.
  add_overwrites_add :
      (d exp exp' : ℤ) (v v' : Value) (now now' : Instant)
      → peek l key ≡ none
      → let r =
          interleave arc
            (0 ∷ 1 ∷ 0 ∷ 1 ∷ [])
            (goroutines d (Call.add key v exp now ∷ Call.add key v' exp' now' ∷ []))
            l in
        (r.0 ≡ ret tt ∷ ret tt ∷ []) × (peek r.1 key ≡ some (of_entry (new_entry d v' exp' now')))
  unfolding interleave turn goroutines InMemory.add InMemory.do_add_set step
  add_overwrites_add d exp exp' v v' now now' h =
      let both : Threads × arc.Lru → Type 0 = λ r.
        (r.0 ≡ ret tt ∷ ret tt ∷ [])
        × (peek r.1 key ≡ some (of_entry (new_entry d v' exp' now'))) in
      subst
        (λ (p : Prog (Unit {0}) × arc.Lru).
          both (
            interleave arc (1 ∷ 0 ∷ 1 ∷ []) (p.0 ∷ perform d (Call.add key v' exp' now') ∷ []) p.1))
        (sym (first l v exp now h))
        (subst
          (λ (p : Prog (Unit {0}) × arc.Lru). both (
            interleave arc (0 ∷ 1 ∷ [])
              ((InMemory.do_add_set d key v exp now >>= λ _. ret tt) ∷ p.0 ∷ []) p.1))
          (sym (first (arc.get l key).1 v' exp' now' (arc.peek-get l key key ∙ h)))
          (refl, arc.peek-add_self _ key _))
    where
      first :
          (l' : arc.Lru) (u : Value) (x : ℤ) (t : Instant)
          → peek l' key ≡ none
          → step arc (perform d (Call.add key u x t)) l'
            ≡ (InMemory.do_add_set d key u x t >>= (λ _. ret tt), (arc.get l' key).1)
      first l' u x t q =
          step-lru_get arc l' key
            (λ o.
              InMemory.if_found (ret (some not_stored)) (InMemory.do_add_set d key u x t) o >>= λ _.
              ret tt)
            none q

  -- A `Get`, and a sweep, that meet an expired entry remove whatever the key holds by then: a `Set`
  -- that runs between their two calls of the cache is done and has no effect. The sweep then goes
  -- on to the next key.
  pub expired_drops_set :
      (d exp : ℤ) (e : GenericCacheEntry) (t : Target) (v : Value) (clock : ℕ → Instant) (i : ℕ)
      (rest : List Bytes) (later : Instant)
      → peek l key ≡ some (of_entry e)
      → expired e (clock i) ≡ true
      → let set = perform d (Call.set key v exp later) in
        let get = perform d (Call.get key t (clock i)) in
        let r = interleave arc (0 ∷ 1 ∷ 0 ∷ []) (get ∷ set ∷ []) l in
        let r' =
          interleave arc (0 ∷ 1 ∷ 0 ∷ []) (InMemory.sweep clock i (key ∷ rest) ∷ set ∷ []) l in
        (r.0 ≡ ret tt ∷ ret tt ∷ [])
        × (peek r.1 key ≡ none)
        × (r'.0 ≡ InMemory.sweep clock (suc i) rest ∷ ret tt ∷ [])
        × (peek r'.1 key ≡ none)
  unfolding goroutines
  expired_drops_set d exp e t v clock i rest later h x =
      let by_get = get_drops_set d exp e t v (clock i) later h x in
      let by_sweep = sweep_drops_set d exp e v clock i rest later h x in
      (by_get.0, by_get.1, by_sweep.0, by_sweep.1)

-- Two requests that both look before they write: of two increments of a counter the second to
-- write leaves its own sum, and of two additions of a key that is not cached it stores over what
-- the first has stored. Both requests of each kind are done.
pub second_write_wins :
    (arc : Arc) (l : arc.Lru) (key other : Bytes) (d : ℤ) (n m : ℕ) (c a x : ℤ) (exp exp' : ℤ)
    (v v' : Value) (now now' : Instant)
    → arc.peek l key ≡ some (entry (int c) a x)
    → arc.peek l other ≡ none
    → let turns : List ℕ = 0 ∷ 1 ∷ 0 ∷ 1 ∷ [] in
      let r =
        interleave arc turns (goroutines d (Call.increment key n ∷ Call.increment key m ∷ [])) l in
      let r' =
        interleave arc turns
          (goroutines d (Call.add other v exp now ∷ Call.add other v' exp' now' ∷ []))
          l in
      (r.0 ≡ ret tt ∷ ret tt ∷ [])
      × (arc.peek r.1 key ≡ some (entry (int (incremented c m)) a x))
      × (r'.0 ≡ ret tt ∷ ret tt ∷ [])
      × (arc.peek r'.1 other ≡ some (of_entry (new_entry d v' exp' now')))
second_write_wins arc l key other d n m c a x exp exp' v v' now now' h k =
    let counted = increment_loses_increment arc l key d n m c a x h in
    let added = add_overwrites_add arc l other d exp exp' v v' now now' k in
    (counted.0, counted.1, added.0, added.1)
