-- ===== src/InMemory/Sweep.antt =====
-- `DeleteExpired` (inmemory.go): the loop visits every cached key and drops what has expired.
use go_cache.Prelude.{
  ℕ, suc, ◌≡◌, ◌≢◌, refl, sym, ap, ◌∙◌, subst, inl, inr, Option, none, some, List, [], ◌∷◌, true,
  false, Bytes, bytes_eq, bytes_eq_iff, Bool-cases, if◌then◌else◌, arith,
}
use go_cache.Clock.{Instant}
use go_cache.Outcome.{Outcome, returns}
use go_cache.Value.{Value, entry, GenericCacheEntry, of_entry, expired, IsEntryIfAny}
use go_cache.Lru.{Arc, Holds, run}
use go_cache.Lru.Run.{HoldsEntries, run-lru_get, remove-HoldsEntries}
use go_cache.InMemory
use go_cache.InMemory.{sweep, sweep_found}

-- What a key holds after it has been visited.
abbrev live : Instant → Option Value → Option Value
live now (some (entry d a x)) =
    if expired (record { payload = d; time_added = a; expires_at = x }) now
    then none
    else some (entry d a x)
live now o = o

-- What a key holds after the rest of the loop.
swept : (ℕ → Instant) → ℕ → List Bytes → Bytes → Option Value → Option Value
swept clock i [] j o = o
swept clock i (k ∷ ks) j o = swept clock (suc i) ks j (if bytes_eq k j then live (clock i) o else o)

Holds-tail : (k j : Bytes) (ks : List Bytes) → bytes_eq k j ≡ false → Holds (k ∷ ks) j → Holds ks j
Holds-tail k j ks q (inl p) = absurd (ground (arith, bytes_eq_iff k j))
Holds-tail k j ks q (inr p) = p

module _ (clock : ℕ → Instant) (j : Bytes) where
  swept-none : (i : ℕ) (ks : List Bytes) → swept clock i ks j none ≡ none
  unfolding swept
  swept-none i [] = refl
  swept-none i (k ∷ ks) = elim (Bool-cases (bytes_eq k j)) [
    | inl e ↦ rw e (swept-none (suc i) ks)
    | inr e ↦ rw e (swept-none (suc i) ks)
  ]

  swept-live :
      (i : ℕ) (ks : List Bytes) (e : GenericCacheEntry)
      → ((n : ℕ) → expired e (clock n) ≡ false)
      → swept clock i ks j (some (of_entry e)) ≡ some (of_entry e)
  unfolding swept
  swept-live i [] e h = refl
  swept-live i (k ∷ ks) e h = elim (Bool-cases (bytes_eq k j)) [
    | inl q ↦ rw (q, h i) (swept-live (suc i) ks e h)
    | inr q ↦ rw q (swept-live (suc i) ks e h)
  ]

  swept-expired :
      (i : ℕ) (ks : List Bytes) (e : GenericCacheEntry)
      → Holds ks j
      → ((n : ℕ) → expired e (clock n) ≡ true)
      → swept clock i ks j (some (of_entry e)) ≡ none
  unfolding swept
  swept-expired i [] e m h = absurd m
  swept-expired i (k ∷ ks) e m h = elim (Bool-cases (bytes_eq k j)) [
    | inl q ↦ rw (q, h i) (swept-none (suc i) ks)
    | inr q ↦ rw q (swept-expired (suc i) ks e (Holds-tail k j ks q m) h)
  ]

module _ (arc : Arc) (clock : ℕ → Instant) where
  open arc use {Lru, peek}

  -- What one turn of the loop leaves to the next.
  record Turn (i : ℕ) (k : Bytes) (ks : List Bytes) (l : Lru) : Type 0 where
    after : Lru
    goes_on : run arc (sweep clock i (k ∷ ks)) l ≡ run arc (sweep clock (suc i) ks) after
    holds : HoldsEntries arc after
    visited :
        (j : Bytes) → peek after j ≡ (if bytes_eq k j then live (clock i) (peek l j) else peek l j)

  visits :
      (now : Instant) (k : Bytes) (l l' : Lru)
      → peek l' k ≡ live now (peek l k)
      → ((j : Bytes) → k ≢ j → peek l' j ≡ peek l j)
      → (j : Bytes) → peek l' j ≡ (if bytes_eq k j then live now (peek l j) else peek l j)
  visits now k l l' same others j = elim (Bool-cases (bytes_eq k j)) [
    | inl q ↦ rw q (subst (λ i. peek l' i ≡ live now (peek l i)) ((bytes_eq_iff k j).0 q) same)
    | inr q ↦ rw q (others j (λ p. ground (arith, bytes_eq_iff k j)))
  ]

  get-HoldsEntries : (l : Lru) (k : Bytes) → HoldsEntries arc l → HoldsEntries arc (arc.get l k).1
  get-HoldsEntries l k e j = subst IsEntryIfAny (sym (arc.peek-get l k j)) (e j)

  module _ (i : ℕ) (k : Bytes) (ks : List Bytes) (l : Lru) (e : HoldsEntries arc l) where
    -- The key is not cached, or holds a live entry: the turn only reads it.
    Turn-kept :
        (o : Option Value)
        → peek l k ≡ o
        → live (clock i) o ≡ o
        → run arc (sweep_found k (clock i) (sweep clock (suc i) ks) o) (arc.get l k).1
          ≡ run arc (sweep clock (suc i) ks) (arc.get l k).1
        → Turn i k ks l
    unfolding sweep
    Turn-kept o h q r = record {
      after = (arc.get l k).1;
      goes_on = run-lru_get arc l k (sweep_found k (clock i) (sweep clock (suc i) ks)) o h ∙ r;
      holds = get-HoldsEntries l k e;
      visited =
          visits (clock i) k l (arc.get l k).1
            (arc.peek-get l k k ∙ h ∙ sym q ∙ ap (live (clock i)) (sym h))
            (λ j _. arc.peek-get l k j);
    }

    Turn-dropped :
        (o : Option Value)
        → peek l k ≡ o
        → live (clock i) o ≡ none
        → run arc (sweep_found k (clock i) (sweep clock (suc i) ks) o) (arc.get l k).1
          ≡ run arc (sweep clock (suc i) ks) (arc.remove (arc.get l k).1 k)
        → Turn i k ks l
    unfolding sweep
    Turn-dropped o h q r = record {
      after = arc.remove (arc.get l k).1 k;
      goes_on = run-lru_get arc l k (sweep_found k (clock i) (sweep clock (suc i) ks)) o h ∙ r;
      holds = remove-HoldsEntries arc (arc.get l k).1 k (get-HoldsEntries l k e);
      visited =
          visits (clock i) k l (arc.remove (arc.get l k).1 k)
            (arc.peek-remove_self (arc.get l k).1 k ∙ sym q ∙ ap (live (clock i)) (sym h))
            (λ j p. arc.peek-remove_ne (arc.get l k).1 k j p ∙ arc.peek-get l k j);
    }

    Turn-of : (o : Option Value) → peek l k ≡ o → IsEntryIfAny o → Turn i k ks l
    unfolding sweep_found run
    Turn-of none h q = Turn-kept none h refl refl
    Turn-of (some (entry d a x)) h q =
        let dead = expired (record { payload = d; time_added = a; expires_at = x }) (clock i) in
        elim (Bool-cases dead) [
          | inl p ↦ Turn-dropped _ h (rw p refl) (rw (p, sweep_found) refl)
          | inr p ↦ Turn-kept _ h (rw p refl) (rw (p, sweep_found) refl)
        ]
    Turn-of (some _) h q = absurd q

  -- The loop returns, and leaves of each key what the visits leave.
  sweep-swept :
      (i : ℕ) (ks : List Bytes) (l : Lru)
      → HoldsEntries arc l
      → ((run arc (sweep clock i ks) l).0 ≡ returns tt)
        × ((j : Bytes) → peek (run arc (sweep clock i ks) l).1 j ≡ swept clock i ks j (peek l j))
  unfolding swept
  sweep-swept i [] l e = unfold sweep run in (refl, λ j. refl)
  sweep-swept i (k ∷ ks) l e =
      let t = Turn-of i k ks l e (peek l k) refl (e k) in
      let rest = sweep-swept (suc i) ks t.after t.holds in
      (
        ap (λ r. r.0) t.goes_on ∙ rest.0,
        λ j.
            ap (λ (r : Outcome (Unit {0}) × Lru). peek r.1 j) t.goes_on
            ∙ rest.1 j
            ∙ ap (swept clock (suc i) ks j) (t.visited j),
      )

  Holds-keys : (l : Lru) (j : Bytes) (v : Value) → peek l j ≡ some v → Holds (arc.keys l) j
  Holds-keys l j v h = (arc.keys-peek l j).1 (λ p. cc)

  -- On a cache that holds entries only the sweep returns. An entry that is expired whenever the
  -- clock is read is gone, one that is live whenever it is read is still there, and no key has
  -- come in.
  pub delete_expired_lem :
      (l : Lru)
      → HoldsEntries arc l
      → let r = run arc (InMemory.delete_expired clock) l in
        (r.0 ≡ returns tt)
        × ((j : Bytes) (e : GenericCacheEntry)
            → peek l j ≡ some (of_entry e)
            → (((n : ℕ) → expired e (clock n) ≡ true) → peek r.1 j ≡ none)
              × (((n : ℕ) → expired e (clock n) ≡ false) → peek r.1 j ≡ some (of_entry e)))
        × ((j : Bytes) → peek l j ≡ none → peek r.1 j ≡ none)
  unfolding InMemory.delete_expired run
  delete_expired_lem l h =
      let all = sweep-swept 0 (arc.keys l) l h in
      (
        all.0,
        λ j e p. (
          λ dead.
              all.1 j
              ∙ ap (swept clock 0 (arc.keys l) j) p
              ∙ swept-expired clock j 0 (arc.keys l) e (Holds-keys l j _ p) dead,
          λ alive.
              all.1 j
              ∙ ap (swept clock 0 (arc.keys l) j) p
              ∙ swept-live clock j 0 (arc.keys l) e alive,
        ),
        λ j p. all.1 j ∙ ap (swept clock 0 (arc.keys l) j) p ∙ swept-none clock j 0 (arc.keys l),
      )
