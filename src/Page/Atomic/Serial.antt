-- ===== src/Page/Atomic/Serial.antt =====
-- Pages under one mutex (galapagos_gin/cache/cache.go) run as if one after the other.
use go_cache.Prelude.{
  ℕ, ◌≡◌, ◌≢◌, refl, sym, ap, ◌∙◌, subst, ◌⊎◌, inl, inr, List, [], ◌∷◌, Bool, true, false, ◌==◌,
  if◌then◌else◌, Bool-cases, arith,
}
use go_cache.Outcome.{Outcome, returns, panics}
use go_cache.Page.Atomic.{
  Code, ends, fails, acts, run_alone, Request, waiting, inside, finished, Shared, update, turn_of,
  schedule, all_waiting, lock, proceed,
}

module _ {A : Type 0} where
  if_true : (b : Bool) (x y : A) → b ≡ true → (if b then x else y) ≡ x
  if_true b x y e = rw e refl

  if_false : (b : Bool) (x y : A) → b ≡ false → (if b then x else y) ≡ y
  if_false b x y e = rw e refl

  update_ne : (f : ℕ → A) (i : ℕ) (a : A) (j : ℕ) → i ≢ j → update f i a j ≡ f j
  update_ne f i a j n = if_false (i == j) a (f j) (ground arith)

  update_self : (f : ℕ → A) (i : ℕ) (a : A) → update f i a i ≡ a
  update_self f i a = if_true (i == i) a (f i) (ground arith)

  -- What holds of the other values, and of the new one, holds after an update.
  update_other-All :
      (Q : ℕ → A → Type 0) (f : ℕ → A) (i : ℕ) (a : A)
      → ((j : ℕ) → i ≢ j → Q j (f j))
      → Q i a
      → (j : ℕ) → Q j (update f i a j)
  update_other-All Q f i a all own j = elim (Bool-cases (i == j)) [
    | inl e ↦
        let same : i ≡ j = ground arith in
        subst (Q j) (sym (if_true (i == j) a (f j) e)) (subst (λ (k : ℕ). Q k a) same own)
    | inr e ↦ subst (Q j) (sym (if_false (i == j) a (f j) e)) (all j (λ q. ground arith))
  ]

  update-All :
      (Q : ℕ → A → Type 0) (f : ℕ → A) (i : ℕ) (a : A)
      → ((j : ℕ) → Q j (f j))
      → Q i a
      → (j : ℕ) → Q j (update f i a j)
  update-All Q f i a all own = update_other-All Q f i a (λ j n. all j) own

-- A request is nowhere in a list.
abbrev pub IsFresh : ℕ → List ℕ → Type 0
IsFresh i [] = Unit {0}
IsFresh i (j ∷ js) = (j ≢ i) × IsFresh i js

-- No request stands twice in a list.
abbrev pub AreOnce : List ℕ → Type 0
AreOnce [] = Unit {0}
AreOnce (i ∷ is) = IsFresh i is × AreOnce is

-- `result` is what the page of a request does when it runs alone.
module _ {W A : Type 0} (result : ℕ → W → Outcome A × W) (w : W) where
  -- The world after the pages of a list of requests, the last first, one after the other.
  abbrev pub after : List ℕ → W
  after [] = w
  after (i ∷ earlier) = (result i (after earlier)).1

  -- A request stands in the list, and its page ended there as it did here.
  abbrev pub EndsIn : ℕ → Outcome A → List ℕ → Type 0
  EndsIn i o [] = ⊥
  EndsIn i o (j ∷ js) = ((j ≡ i) × (o ≡ (result j (after js)).0)) ⊎ EndsIn i o js

module _ {W A : Type 0} (page : ℕ → Code W A) (result : ℕ → W → Outcome A × W)
    (alone : (i : ℕ) (w : W) → run_alone (page i) w ≡ result i w) (w : W) where
  -- What a request is known to be when the pages of `order` are over: `held` says who is inside.
  abbrev Place : List ℕ → ℕ → Request W A → Type 0
  Place order i waiting = IsFresh i order
  Place order i (inside c) = IsFresh i order
  Place order i (finished o) = EndsIn result w i o order

  -- The mutex is free, or one request is inside, with what is left of its page.
  data Held (s : Shared W A) (order : List ℕ) : Type 0 where
    free :
        s.is_locked ≡ false
        → ((i : ℕ) (c : Code W A) → s.requests i ≢ inside c)
        → s.world ≡ after result w order
        → Held s order
    held_by :
        (i : ℕ) (c : Code W A)
        → s.is_locked ≡ true
        → s.requests i ≡ inside c
        → ((j : ℕ) (d : Code W A) → i ≢ j → s.requests j ≢ inside d)
        → run_alone c s.world ≡ result i (after result w order)
        → Held s order

  record Inv (s : Shared W A) (order : List ℕ) : Type 0 where
    once : AreOnce order
    places : (i : ℕ) → Place order i (s.requests i)
    mutex : Held s order

  at_lock : (i : ℕ) → Shared W A → Shared W A
  at_lock i s = record s { requests = update s.requests i (inside (page i)); is_locked = true }

  goes_in :
      (i : ℕ) (s : Shared W A) (order : List ℕ)
      → s.requests i ≡ waiting
      → ((j : ℕ) (c : Code W A) → s.requests j ≢ inside c)
      → s.world ≡ after result w order
      → Inv s order
      → Inv (at_lock i s) order
  unfolding at_lock
  goes_in i s order e none_inside same v = record {
    once = v.once;
    places =
        update-All (Place order) s.requests i (inside (page i)) v.places
          (subst (Place order i) e (v.places i));
    mutex =
        held_by i (page i) refl (update_self s.requests i (inside (page i)))
          (λ j d n.
            subst (λ (r : Request W A). r ≢ inside d)
              (sym (update_ne s.requests i (inside (page i)) j n)) (none_inside j d))
          (ap (run_alone (page i)) same ∙ alone i (after result w order));
  }

  at_end : (i : ℕ) → Outcome A → Shared W A → Shared W A
  at_end i o s = record s { requests = update s.requests i (finished o); is_locked = false }

  -- The place of another request is kept when one has ended.
  Place-later :
      (order : List ℕ) (i j : ℕ) (r : Request W A) → i ≢ j → Place order j r → Place (i ∷ order) j r
  Place-later order i j waiting n h = (n, h)
  Place-later order i j (inside c) n h = (n, h)
  Place-later order i j (finished o) n h = inr h

  comes_out :
      (i : ℕ) (s : Shared W A) (order : List ℕ) (o : Outcome A)
      → IsFresh i order
      → ((j : ℕ) (d : Code W A) → i ≢ j → s.requests j ≢ inside d)
      → (o, s.world) ≡ result i (after result w order)
      → Inv s order
      → Inv (at_end i o s) (i ∷ order)
  unfolding at_end
  comes_out i s order o fresh others same v = record {
    once = (fresh, v.once);
    places =
        update_other-All (Place (i ∷ order)) s.requests i (finished o)
          (λ j n. Place-later order i j (s.requests j) n (v.places j))
          (inl (refl, ap (λ (r : Outcome A × W). r.0) same));
    mutex =
        free refl
          (update_other-All (λ (j : ℕ) (r : Request W A). (d : Code W A) → r ≢ inside d) s.requests
            i (finished o) (λ j n d. others j d n) (λ d q. ground arith))
          (ap (λ (r : Outcome A × W). r.1) same);
  }

  goes_on :
      (i : ℕ) (s : Shared W A) (order : List ℕ) (c : Code W A)
      → IsFresh i order
      → s.is_locked ≡ true
      → ((j : ℕ) (d : Code W A) → i ≢ j → s.requests j ≢ inside d)
      → run_alone c s.world ≡ result i (after result w order)
      → Inv s order
      → (order' : List ℕ) × Inv (proceed page i c s) order'
  unfolding run_alone at_end
  goes_on i s order (ends a) fresh locked others same v =
      (i ∷ order, comes_out i s order (returns a) fresh others same v)
  goes_on i s order fails fresh locked others same v =
      (i ∷ order, comes_out i s order panics fresh others same v)
  goes_on i s order (acts change next) fresh locked others same v = (
    order,
    record {
      once = v.once;
      places = update-All (Place order) s.requests i (inside (next s.world)) v.places fresh;
      mutex =
          held_by i (next s.world) locked (update_self s.requests i (inside (next s.world)))
            (λ j d n.
              subst (λ (r : Request W A). r ≢ inside d)
                (sym (update_ne s.requests i (inside (next s.world)) j n)) (others j d n))
            same;
    },
  )

  step-Inv :
      (i : ℕ) (s : Shared W A) (order : List ℕ) (r : Request W A)
      → s.requests i ≡ r
      → Inv s order
      → (order' : List ℕ) × Inv (turn_of page i r s) order'
  unfolding turn_of at_lock
  step-Inv i s order (finished o) e v = (order, v)
  step-Inv i s order waiting e v = by_mutex v.mutex
    where
      by_mutex : Held s order → (order' : List ℕ) × Inv (lock page i s) order'
      by_mutex (free unlocked none_inside same) = (
        order,
        subst (λ (t : Shared W A). Inv t order) (sym (if_false _ _ _ unlocked))
            (goes_in i s order e none_inside same v),
      )
      by_mutex (held_by j c locked at others same) =
          (order, subst (λ (t : Shared W A). Inv t order) (sym (if_true _ _ _ locked)) v)
  step-Inv i s order (inside c) e v = by_mutex v.mutex
    where
      by_mutex : Held s order → (order' : List ℕ) × Inv (proceed page i c s) order'
      by_mutex (free unlocked none_inside same) = absurd (none_inside i c e)
      by_mutex (held_by j d locked at others same) = elim (Bool-cases (j == i)) [
        | inl q ↦
            let me : j ≡ i = ground arith in
            let mine : s.requests i ≡ inside d = subst (λ (k : ℕ). s.requests k ≡ inside d) me at in
            let code : d ≡ c = cc in
            goes_on i s order c (subst (Place order i) e (v.places i)) locked
              (subst (λ (k : ℕ). (l : ℕ) (f : Code W A) → k ≢ l → s.requests l ≢ inside f) me
                others)
              (ap (λ (f : Code W A). run_alone f s.world) (sym code)
                ∙ same
                ∙ ap (λ (k : ℕ). result k (after result w order)) me)
              v
        | inr q ↦ absurd (others i c (λ p. ground arith) e)
      ]

  world_free :
      (s : Shared W A) (order : List ℕ)
      → Held s order
      → s.is_locked ≡ false
      → s.world ≡ after result w order
  world_free s order (free unlocked none_inside same) e = same
  world_free s order (held_by j d locked at others same) e = absurd (cc)

  schedule-Inv :
      (is : List ℕ) → (order : List ℕ) × Inv (schedule page is (all_waiting page w)) order
  unfolding schedule
  schedule-Inv [] =
      ([], record { once = tt; places = λ i. tt; mutex = free refl (λ i c q. ground arith) refl })
  schedule-Inv (i ∷ is) =
      let (order, v) = schedule-Inv is in
      step-Inv i (schedule page is (all_waiting page w)) order _ refl v

  -- Requests under the mutex, in any schedule: the pages of the requests that have finished ended
  -- as they do one after the other in some order, in which each stands once; and if the mutex is
  -- free, the world is what that order leaves.
  pub schedule_serial :
      (is : List ℕ)
      → let s = schedule page is (all_waiting page w) in
        (order : List ℕ) × AreOnce order
        × ((i : ℕ) (o : Outcome A) → s.requests i ≡ finished o → EndsIn result w i o order)
        × (s.is_locked ≡ false → s.world ≡ after result w order)
  schedule_serial is =
      let (order, v) = schedule-Inv is in
      (
        order,
        v.once,
        λ i o e. subst (Place order i) e (v.places i),
        λ e. world_free (schedule page is (all_waiting page w)) order v.mutex e,
      )
