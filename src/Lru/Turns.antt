-- ===== src/Lru/Turns.antt =====
-- How many turns a goroutine needs, whatever the others do between them.
use go_cache.Prelude.{
  ℕ, zero, suc, ◌+◌, ◌≡◌, ◌≢◌, ◌≤◌, refl, sym, subst, ap, ◌∙◌, inl, inr, Option, some, List, [],
  ◌∷◌, ◌++◌, Bytes, ◌==◌, if◌then◌else◌, get_elem?, Bool-cases, arith,
}
use go_cache.Value.{Value}
use go_cache.Lru.{
  Arc, Prog, ret, panic, lru_get, lru_add, lru_remove, lru_keys, lru_len, lru_purge, ◌>>=◌, step,
}
use go_cache.Lru.Threads.{Threads, turn, interleave}

-- Code that makes at most `n` calls of the library, whatever these return.
abbrev pub Ends : {A : Type 0} → ℕ → Prog A → Type 0
Ends n (ret a) = Unit {0}
Ends n panic = Unit {0}
Ends zero _ = ⊥
Ends (suc n) (lru_get k f) = (o : Option Value) → Ends n (f o)
Ends (suc n) (lru_add k v p) = Ends n p
Ends (suc n) (lru_remove k p) = Ends n p
Ends (suc n) (lru_keys f) = (ks : List Bytes) → Ends n (f ks)
Ends (suc n) (lru_len f) = (m : ℕ) → Ends n (f m)
Ends (suc n) (lru_purge p) = Ends n p

-- Nothing is left to do.
abbrev pub IsDone : {A : Type 0} → Prog A → Type 0
IsDone (ret a) = Unit {0}
IsDone panic = Unit {0}
IsDone _ = ⊥

-- The turns of goroutine `i` in a schedule.
abbrev pub turns : ℕ → List ℕ → ℕ
turns i [] = 0
turns i (j ∷ js) = (if j == i then 1 else 0) + turns i js

-- A goroutine of that number is there, and has nothing left to do.
abbrev pub IsFinished : Threads → ℕ → Type 0
IsFinished ps i = (q : Prog (Unit {0})) × (get_elem? ps i ≡ some q) × IsDone q

pub Ends-weaken : {A : Type 0} (n : ℕ) (p : Prog A) → Ends n p → Ends (suc n) p
Ends-weaken n (ret a) h = tt
Ends-weaken n panic h = tt
Ends-weaken zero (lru_get k f) h = absurd h
Ends-weaken zero (lru_add k v p) h = absurd h
Ends-weaken zero (lru_remove k p) h = absurd h
Ends-weaken zero (lru_keys f) h = absurd h
Ends-weaken zero (lru_len f) h = absurd h
Ends-weaken zero (lru_purge p) h = absurd h
Ends-weaken (suc n) (lru_get k f) h = λ o. Ends-weaken n (f o) (h o)
Ends-weaken (suc n) (lru_add k v p) h = Ends-weaken n p h
Ends-weaken (suc n) (lru_remove k p) h = Ends-weaken n p h
Ends-weaken (suc n) (lru_keys f) h = λ ks. Ends-weaken n (f ks) (h ks)
Ends-weaken (suc n) (lru_len f) h = λ m. Ends-weaken n (f m) (h m)
Ends-weaken (suc n) (lru_purge p) h = Ends-weaken n p h

Ends-IsDone : {A : Type 0} (p : Prog A) → Ends 0 p → IsDone p
Ends-IsDone (ret a) h = tt
Ends-IsDone panic h = tt
Ends-IsDone (lru_get k f) h = h
Ends-IsDone (lru_add k v p) h = h
Ends-IsDone (lru_remove k p) h = h
Ends-IsDone (lru_keys f) h = h
Ends-IsDone (lru_len f) h = h
Ends-IsDone (lru_purge p) h = h

-- What follows without a call of its own adds none.
pub >>=-Ends :
    {A B : Type 0} (n : ℕ) (p : Prog A) (f : A → B) → Ends n p → Ends n (p >>= λ a. ret (f a))
>>=-Ends n (ret a) f h = tt
>>=-Ends n panic f h = tt
>>=-Ends zero (lru_get k g) f h = h
>>=-Ends zero (lru_add k v p) f h = h
>>=-Ends zero (lru_remove k p) f h = h
>>=-Ends zero (lru_keys g) f h = h
>>=-Ends zero (lru_len g) f h = h
>>=-Ends zero (lru_purge p) f h = h
>>=-Ends (suc n) (lru_get k g) f h = λ o. >>=-Ends n (g o) f (h o)
>>=-Ends (suc n) (lru_add k v p) f h = >>=-Ends n p f h
>>=-Ends (suc n) (lru_remove k p) f h = >>=-Ends n p f h
>>=-Ends (suc n) (lru_keys g) f h = λ ks. >>=-Ends n (g ks) f (h ks)
>>=-Ends (suc n) (lru_len g) f h = λ m. >>=-Ends n (g m) f (h m)
>>=-Ends (suc n) (lru_purge p) f h = >>=-Ends n p f h

abbrev one_less : ℕ → ℕ
one_less zero = 0
one_less (suc n) = n

one_less-le : (n m : ℕ) → n ≤ suc m → one_less n ≤ m
one_less-le zero m h = omega arith
one_less-le (suc n) m h = omega arith

module _ (arc : Arc) where
  step-Ends :
      {A : Type 0} (n : ℕ) (p : Prog A) (l : arc.Lru) → Ends (suc n) p → Ends n (step arc p l).0
  unfolding step
  step-Ends n (ret a) l h = tt
  step-Ends n panic l h = tt
  step-Ends n (lru_get k f) l h = h (arc.get l k).0
  step-Ends n (lru_add k v p) l h = h
  step-Ends n (lru_remove k p) l h = h
  step-Ends n (lru_keys f) l h = h (arc.keys l)
  step-Ends n (lru_len f) l h = h (arc.len l)
  step-Ends n (lru_purge p) l h = h

  step-one_less :
      {A : Type 0} (n : ℕ) (p : Prog A) (l : arc.Lru)
      → Ends n p
      → Ends (one_less n) (step arc p l).0
  step-one_less zero p l h = step-Ends 0 p l (Ends-weaken 0 p h)
  step-one_less (suc n) p l h = step-Ends n p l h

  pub turn_self :
      (i : ℕ) (ps : Threads) (l : arc.Lru) (p : Prog (Unit {0}))
      → get_elem? ps i ≡ some p
      → get_elem? (turn arc i ps l).0 i ≡ some (step arc p l).0
  unfolding turn
  turn_self i [] l p h = absurd (ground arith)
  turn_self zero (q ∷ ps) l p h =
      let same : q ≡ p = cc in ap (λ (r : Prog (Unit {0})). some (step arc r l).0) same
  turn_self (suc i) (q ∷ ps) l p h = turn_self i ps l p h

  turn-other :
      (i j : ℕ) (ps : Threads) (l : arc.Lru)
      → j ≢ i
      → get_elem? (turn arc j ps l).0 i ≡ get_elem? ps i
  unfolding turn
  turn-other i j [] l n = refl
  turn-other zero zero (q ∷ ps) l n = absurd (n refl)
  turn-other zero (suc j) (q ∷ ps) l n = refl
  turn-other (suc i) zero (q ∷ ps) l n = refl
  turn-other (suc i) (suc j) (q ∷ ps) l n = turn-other i j ps l (λ e. n (ap suc e))

  -- Enough turns bring a goroutine to its end.
  pub interleave-IsFinished :
      (is : List ℕ) (ps : Threads) (l : arc.Lru) (i n : ℕ) (p : Prog (Unit {0}))
      → get_elem? ps i ≡ some p
      → Ends n p
      → n ≤ turns i is
      → IsFinished (interleave arc is ps l).0 i
  unfolding interleave
  interleave-IsFinished [] ps l i zero p at h k = (p, at, Ends-IsDone p h)
  interleave-IsFinished [] ps l i (suc n) p at h k = absurd (omega arith)
  interleave-IsFinished (j ∷ is) ps l i n p at h k = elim (Bool-cases (j == i)) [
    | inl e ↦
        let same : j ≡ i = ground arith in
        let now =
          subst (λ (m : ℕ). get_elem? (turn arc m ps l).0 i ≡ some (step arc p l).0) (sym same)
            (turn_self i ps l p at) in
        interleave-IsFinished is (turn arc j ps l).0 (turn arc j ps l).1 i (one_less n)
          (step arc p l).0 now (step-one_less n p l h) (one_less-le n (turns i is) (ground arith))
    | inr e ↦
        let other : j ≢ i = λ q. ground arith in
        interleave-IsFinished is (turn arc j ps l).0 (turn arc j ps l).1 i n p
          (turn-other i j ps l other ∙ at) h (ground arith)
  ]

  -- A schedule in two parts.
  pub interleave-++ :
      (is js : List ℕ) (ps : Threads) (l : arc.Lru)
      → interleave arc (is ++ js) ps l
        ≡ interleave arc js (interleave arc is ps l).0 (interleave arc is ps l).1
  unfolding interleave
  interleave-++ [] js ps l = refl
  interleave-++ (i ∷ is) js ps l = interleave-++ is js (turn arc i ps l).0 (turn arc i ps l).1

  -- A goroutine that has had no turn is where it was.
  pub interleave-waiting :
      (is : List ℕ) (ps : Threads) (l : arc.Lru) (i : ℕ)
      → turns i is ≡ 0
      → get_elem? (interleave arc is ps l).0 i ≡ get_elem? ps i
  unfolding interleave
  interleave-waiting [] ps l i none_yet = refl
  interleave-waiting (j ∷ is) ps l i none_yet =
      let other : j ≢ i = λ e. ground arith in
      interleave-waiting is (turn arc j ps l).0 (turn arc j ps l).1 i (ground arith)
      ∙ turn-other i j ps l other
