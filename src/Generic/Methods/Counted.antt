-- ===== src/Generic/Methods/Counted.antt =====
-- A store whose calls are counted, and code that makes one call of it at most (generic.go).
use go_cache.Prelude.{ℕ, suc, ◌≡◌, refl, subst, ◌⊎◌, inl, inr, Bool, true, false}
use go_cache.Outcome.{Outcome, returns, panics}
use go_cache.Store.{CacheStore, M, ◌>>=◌, pure, throw, asserting, after}

-- The call, and one more on the count.
abbrev pub counting : {W A : Type 0} → M W A → M (W × ℕ) A
counting m (w, n) = let (o, w') = m w in (o, (w', suc n))

-- A store of the same pools, with the number of its calls beside the world.
abbrev pub counted : CacheStore → CacheStore
counted s = record {
  World = s.World × ℕ;
  Pool = s.Pool;
  is_store = s.is_store;
  is_redis = s.is_redis;
  get = λ p key t. counting (s.get p key t);
  set = λ p key v exp. counting (s.set p key v exp);
  add = λ p key v exp. counting (s.add p key v exp);
  replace = λ p key v exp. counting (s.replace p key v exp);
  delete = λ p key. counting (s.delete p key);
  increment = λ p key n. counting (s.increment p key n);
  decrement = λ p key n. counting (s.decrement p key n);
  flush = λ p. counting (s.flush p);
  expire_at = λ p key n. counting (s.expire_at p key n);
  get_expires_in = λ p key. counting (s.get_expires_in p key);
  increment_atomic = λ p key n. counting (s.increment_atomic p key n);
  increment_check_set = λ p key n. counting (s.increment_check_set p key n);
}

-- Two runs end alike, one of them with a count: it has grown by one, or by none, and then the
-- world is as it was.
pub record SameEnd {W A : Type 0} (w : W) (n : ℕ) (r : Outcome A × (W × ℕ)) (r' : Outcome A × W)
    : Type 0 where
  pub same_outcome : r.0 ≡ r'.0
  pub same_world : r.1.0 ≡ r'.1
  pub calls : (r.1.1 ≡ suc n) ⊎ ((r.1.1 ≡ n) × (r.1.0 ≡ w))

module _ {W : Type 0} where
  -- The counted code and the code do the same, with one call at most.
  pub record CallsOnce {A : Type 0} (m : M (W × ℕ) A) (m' : M W A) : Type 0 where
    pub ends : (w : W) (n : ℕ) → SameEnd w n (m (w, n)) (m' w)

  -- They do the same, with no call.
  abbrev pub CallsNone : {A : Type 0} → M (W × ℕ) A → M W A → Type 0
  CallsNone {A} m m' = (o : Outcome A) × ((v : W × ℕ) → m v ≡ (o, v)) × ((w : W) → m' w ≡ (o, w))

  pub pure-CallsNone : {A : Type 0} (a : A) → CallsNone (pure a) (pure a)
  pure-CallsNone a = (returns a, λ v. refl, λ w. refl)

  pub throw-CallsNone : {A : Type 0} → CallsNone {A = A} throw throw
  throw-CallsNone = (panics, λ v. refl, λ w. refl)

  pub CallsNone-CallsOnce :
      {A : Type 0} (m : M (W × ℕ) A) (m' : M W A) → CallsNone m m' → CallsOnce m m'
  CallsNone-CallsOnce m m' (o, p, q) = record {
    ends = λ w n. record {
      same_outcome = rw (p (w, n)) (rw (q w) refl);
      same_world = rw (p (w, n)) (rw (q w) refl);
      calls = inr (rw (p (w, n)) (refl, refl));
    };
  }

  -- Code without a call, and then code.
  pub then-CallsOnce :
      {A B : Type 0} (m : M (W × ℕ) A) (m' : M W A) (f : A → M (W × ℕ) B) (f' : A → M W B)
      → CallsNone m m'
      → ((a : A) → CallsOnce (f a) (f' a))
      → CallsOnce (m >>= f) (m' >>= f')
  then-CallsOnce m m' f f' (returns a, p, q) h = record {
    ends = λ w n. rw (p (w, n)) (rw (q w) ((h a).ends w n));
  }
  then-CallsOnce m m' f f' (panics, p, q) h = record {
    ends = λ w n.
        rw (p (w, n))
          (rw (q w) (record { same_outcome = refl; same_world = refl; calls = inr (refl, refl) }));
  }

  -- Code, and then code without a call.
  pub CallsOnce-then :
      {A B : Type 0} (m : M (W × ℕ) A) (m' : M W A) (f : A → M (W × ℕ) B) (f' : A → M W B)
      → CallsOnce m m'
      → ((a : A) → CallsNone (f a) (f' a))
      → CallsOnce (m >>= f) (m' >>= f')
  CallsOnce-then {A = A} m m' f f' h k = record {
    ends = λ w n. by_end w n (m (w, n)) (m' w) (h.ends w n);
  }
    where
      last :
          (w : W) (n : ℕ) (a : A) (v : W) (i : ℕ)
          → (i ≡ suc n) ⊎ ((i ≡ n) × (v ≡ w))
          → SameEnd w n (f a (v, i)) (f' a v)
      last w n a v i e =
          let (o, p, q) = k a in
          rw (p (v, i)) (rw (q v) (record { same_outcome = refl; same_world = refl; calls = e }))

      by_end :
          (w : W) (n : ℕ) (r : Outcome A × (W × ℕ)) (r' : Outcome A × W)
          → SameEnd w n r r'
          → SameEnd w n (after r f) (after r' f')
      by_end w n (returns a, (v, i)) (o', w') e =
          subst (λ o. SameEnd w n (f a (v, i)) (after (o, w') f')) e.same_outcome
            (subst (λ u. SameEnd w n (f a (v, i)) (f' a u)) e.same_world (last w n a v i e.calls))
      by_end w n (panics, (v, i)) (o', w') e =
          subst (λ o. SameEnd w n (panics, (v, i)) (after (o, w') f')) e.same_outcome
            (record { same_outcome = refl; same_world = e.same_world; calls = e.calls })

  pub counting-CallsOnce : {A : Type 0} (m : M W A) → CallsOnce (counting m) m
  counting-CallsOnce m = record {
    ends = λ w n. record { same_outcome = refl; same_world = refl; calls = inl refl };
  }

  pub asserting-CallsOnce :
      {A : Type 0} (b : Bool) (m : M (W × ℕ) A) (m' : M W A)
      → CallsOnce m m'
      → CallsOnce (asserting b m) (asserting b m')
  asserting-CallsOnce true m m' h = h
  asserting-CallsOnce false m m' h = CallsNone-CallsOnce throw throw throw-CallsNone
