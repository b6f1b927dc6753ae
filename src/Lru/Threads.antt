-- ===== src/Lru/Threads.antt =====
-- Goroutines that share one LRU cache: their atomic calls in any order.
use go_cache.Prelude.{ℕ, zero, suc, List, [], ◌∷◌, Bytes}
use go_cache.Lru.{Arc, Prog, step}
use go_cache.Lru.Run.{Keeps, AnEntry, HoldsAll, step-Keeps}
use go_cache.Value.{Value}

-- What each goroutine has still to do.
abbrev pub Threads : Type 0
Threads = List (Prog (Unit {0}))

abbrev pub AllKeep : (Bytes → Value → Type 0) → Threads → Type 0
AllKeep P [] = Unit {0}
AllKeep P (p ∷ ps) = Keeps P p × AllKeep P ps

abbrev pub AreSafe : Threads → Type 0
AreSafe = AllKeep AnEntry

module _ (arc : Arc) where
  open arc use {Lru}

  -- The goroutine of the given number makes its next call. There may be none of that number.
  unfoldable pub turn : ℕ → Threads → Lru → Threads × Lru
  turn i [] l = ([], l)
  turn zero (p ∷ ps) l = let (p', l') = step arc p l in (p' ∷ ps, l')
  turn (suc i) (p ∷ ps) l = let (ps', l') = turn i ps l in (p ∷ ps', l')

  -- A schedule names, call by call, whose turn it is.
  unfoldable pub interleave : List ℕ → Threads → Lru → Threads × Lru
  unfolding turn
  interleave [] ps l = (ps, l)
  interleave (i ∷ is) ps l = let (ps', l') = turn i ps l in interleave is ps' l'

  module _ (P : Bytes → Value → Type 0) where
    turn-AllKeep :
        (i : ℕ) (ps : Threads) (l : Lru)
        → AllKeep P ps
        → HoldsAll P arc l
        → AllKeep P (turn i ps l).0 × HoldsAll P arc (turn i ps l).1
    unfolding turn
    turn-AllKeep i [] l s h = (tt, h)
    turn-AllKeep zero (p ∷ ps) l s h = let n = step-Keeps P arc p l s.0 h in ((n.0, s.1), n.1)
    turn-AllKeep (suc i) (p ∷ ps) l s h = let n = turn-AllKeep i ps l s.1 h in ((s.0, n.0), n.1)

    -- An invariant that each goroutine keeps is kept in any order of their calls.
    pub interleave-AllKeep :
        (is : List ℕ) (ps : Threads) (l : Lru)
        → AllKeep P ps
        → HoldsAll P arc l
        → AllKeep P (interleave is ps l).0 × HoldsAll P arc (interleave is ps l).1
    unfolding interleave
    interleave-AllKeep [] ps l s h = (s, h)
    interleave-AllKeep (i ∷ is) ps l s h =
        let n = turn-AllKeep i ps l s h in interleave-AllKeep is _ _ n.0 n.1
