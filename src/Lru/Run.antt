-- ===== src/Lru/Run.antt =====
-- What holds of code over the LRU library, whatever the code: an invariant of the cached values,
-- kept by each atomic call.
use go_cache.Prelude.{
  ◌∙◌, ap, ℕ, ◌≡◌, refl, sym, ap, subst, inl, inr, Option, List, Bytes, Bool-cases, bytes_eq,
  bytes_eq_iff, arith,
}
use go_cache.Outcome.{returns}
use go_cache.Value.{Value, IsEntry, IfAny}
use go_cache.Lru.{
  Arc, Prog, ret, panic, lru_get, lru_add, lru_remove, lru_keys, lru_len, lru_purge, ◌>>=◌, run,
  step,
}

-- An invariant of the values that are cached under each key.
module _ (P : Bytes → Value → Type 0) where
  -- Code that adds only what the invariant allows, and does not panic as long as it is handed
  -- nothing else.
  abbrev pub Keeps : {A : Type 0} → Prog A → Type 0
  Keeps (ret a) = Unit {0}
  Keeps panic = ⊥
  Keeps (lru_get k f) = (o : Option Value) → IfAny (P k) o → Keeps (f o)
  Keeps (lru_add k v p) = P k v × Keeps p
  Keeps (lru_remove k p) = Keeps p
  Keeps (lru_keys f) = (ks : List Bytes) → Keeps (f ks)
  Keeps (lru_len f) = (n : ℕ) → Keeps (f n)
  Keeps (lru_purge p) = Keeps p

  -- Code of two parts that keep the invariant keeps it.
  pub >>=-Keeps :
      {A B : Type 0} (p : Prog A) (f : A → Prog B)
      → Keeps p
      → ((a : A) → Keeps (f a))
      → Keeps (p >>= f)
  >>=-Keeps (ret a) f h k = k a
  >>=-Keeps panic f h k = h
  >>=-Keeps (lru_get key g) f h k = λ o e. >>=-Keeps (g o) f (h o e) k
  >>=-Keeps (lru_add key v p) f h k = (h.0, >>=-Keeps p f h.1 k)
  >>=-Keeps (lru_remove key p) f h k = >>=-Keeps p f h k
  >>=-Keeps (lru_keys g) f h k = λ ks. >>=-Keeps (g ks) f (h ks) k
  >>=-Keeps (lru_len g) f h k = λ n. >>=-Keeps (g n) f (h n) k
  >>=-Keeps (lru_purge p) f h k = >>=-Keeps p f h k

  module _ (arc : Arc) where
    open arc use {Lru, peek}

    -- Every cached value is as the invariant has it.
    abbrev pub HoldsAll : Lru → Type 0
    HoldsAll l = (k : Bytes) → IfAny (P k) (peek l k)

    pub add-HoldsAll :
        (l : Lru) (k : Bytes) (v : Value) → P k v → HoldsAll l → HoldsAll (arc.add l k v)
    add-HoldsAll l k v e h j = elim (Bool-cases (bytes_eq k j)) [
      | inl same ↦
          subst (λ i. IfAny (P i) (peek (arc.add l k v) i)) ((bytes_eq_iff k j).0 same)
            (subst (IfAny (P k)) (sym (arc.peek-add_self l k v)) e)
      | inr other ↦ elim (arc.peek-add_ne l k j v (λ p. ground (arith, bytes_eq_iff k j))) [
        | inl kept ↦ subst (IfAny (P j)) (sym kept) (h j)
        | inr gone ↦ subst (IfAny (P j)) (sym gone) tt
      ]
    ]

    pub remove-HoldsAll : (l : Lru) (k : Bytes) → HoldsAll l → HoldsAll (arc.remove l k)
    remove-HoldsAll l k h j = elim (Bool-cases (bytes_eq k j)) [
      | inl same ↦
          subst (λ i. IfAny (P i) (peek (arc.remove l k) i)) ((bytes_eq_iff k j).0 same)
            (subst (IfAny (P k)) (sym (arc.peek-remove_self l k)) tt)
      | inr other ↦
          subst (IfAny (P j))
            (sym (arc.peek-remove_ne l k j (λ p. ground (arith, bytes_eq_iff k j)))) (h j)
    ]

    -- One atomic call of code that keeps the invariant leaves such code, and the invariant.
    pub step-Keeps :
        {A : Type 0} (p : Prog A) (l : Lru)
        → Keeps p
        → HoldsAll l
        → Keeps (step arc p l).0 × HoldsAll (step arc p l).1
    unfolding step
    step-Keeps (ret a) l s h = (tt, h)
    step-Keeps panic l s h = absurd s
    step-Keeps (lru_get k f) l s h = (
      s (arc.get l k).0 (subst (IfAny (P k)) (sym (arc.get-peek l k)) (h k)),
      λ j. subst (IfAny (P j)) (sym (arc.peek-get l k j)) (h j),
    )
    step-Keeps (lru_add k v p) l s h = (s.1, add-HoldsAll l k v s.0 h)
    step-Keeps (lru_remove k p) l s h = (s, remove-HoldsAll l k h)
    step-Keeps (lru_keys f) l s h = (s (arc.keys l), h)
    step-Keeps (lru_len f) l s h = (s (arc.len l), h)
    step-Keeps (lru_purge p) l s h = (s, λ j. subst (IfAny (P j)) (sym (arc.peek-purge l j)) tt)

    -- So such code that runs alone returns, and leaves the invariant.
    pub run-Keeps :
        {A : Type 0} (p : Prog A) (l : Lru)
        → Keeps p
        → HoldsAll l
        → (a : A) × ((run arc p l).0 ≡ returns a) × HoldsAll (run arc p l).1
    unfolding run step
    run-Keeps (ret a) l s h = (a, refl, h)
    run-Keeps panic l s h = absurd s
    run-Keeps (lru_get k f) l s h =
        let n = step-Keeps (lru_get k f) l s h in run-Keeps (f (arc.get l k).0) _ n.0 n.1
    run-Keeps (lru_add k v p) l s h =
        let n = step-Keeps (lru_add k v p) l s h in run-Keeps p _ n.0 n.1
    run-Keeps (lru_remove k p) l s h =
        let n = step-Keeps (lru_remove k p) l s h in run-Keeps p _ n.0 n.1
    run-Keeps (lru_keys f) l s h =
        let n = step-Keeps (lru_keys f) l s h in run-Keeps (f (arc.keys l)) _ n.0 n.1
    run-Keeps (lru_len f) l s h =
        let n = step-Keeps (lru_len f) l s h in run-Keeps (f (arc.len l)) _ n.0 n.1
    run-Keeps (lru_purge p) l s h = let n = step-Keeps (lru_purge p) l s h in run-Keeps p _ n.0 n.1

-- The invariant that every cached value is an entry.
abbrev pub AnEntry : Bytes → Value → Type 0
AnEntry k v = IsEntry v

abbrev pub IsSafe : {A : Type 0} → Prog A → Type 0
IsSafe p = Keeps AnEntry p

module _ (arc : Arc) where
  open arc use {Lru, peek}

  abbrev pub HoldsEntries : Lru → Type 0
  HoldsEntries l = HoldsAll AnEntry arc l

  pub add-HoldsEntries :
      (l : Lru) (k : Bytes) (v : Value) → IsEntry v → HoldsEntries l → HoldsEntries (arc.add l k v)
  add-HoldsEntries = add-HoldsAll AnEntry arc

  pub remove-HoldsEntries : (l : Lru) (k : Bytes) → HoldsEntries l → HoldsEntries (arc.remove l k)
  remove-HoldsEntries = remove-HoldsAll AnEntry arc

  pub step-IsSafe :
      {A : Type 0} (p : Prog A) (l : Lru)
      → IsSafe p
      → HoldsEntries l
      → IsSafe (step arc p l).0 × HoldsEntries (step arc p l).1
  step-IsSafe = step-Keeps AnEntry arc

  pub run-IsSafe :
      {A : Type 0} (p : Prog A) (l : Lru)
      → IsSafe p
      → HoldsEntries l
      → (a : A) × ((run arc p l).0 ≡ returns a) × HoldsEntries (run arc p l).1
  run-IsSafe = run-Keeps AnEntry arc

  -- `Get` hands the code what is cached.
  pub run-lru_get :
      {A : Type 0} (l : Lru) (k : Bytes) (f : Option Value → Prog A) (o : Option Value)
      → peek l k ≡ o
      → run arc (lru_get k f) l ≡ run arc (f o) (arc.get l k).1
  unfolding run
  run-lru_get l k f o h =
      ap (λ (v : Option Value). run arc (f v) (arc.get l k).1) (arc.get-peek l k ∙ h)

  pub step-lru_get :
      {A : Type 0} (l : Lru) (k : Bytes) (f : Option Value → Prog A) (o : Option Value)
      → peek l k ≡ o
      → step arc (lru_get k f) l ≡ (f o, (arc.get l k).1)
  unfolding step
  step-lru_get l k f o h = ap (λ (v : Option Value). (f v, (arc.get l k).1)) (arc.get-peek l k ∙ h)
