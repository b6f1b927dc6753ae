-- ===== src/Janitor/Safe.antt =====
-- What holds of the janitor (inmemory.go) whenever it is looked at.
use go_cache.Prelude.{ℕ, ◌≡◌, ◌≢◌, ◌↔◌, refl, sym, subst, Option, none, some, Bool, Bytes, arith}
use go_cache.Prelude.Int.{ℤ}
use go_cache.Value.{IsEntryIfAny}
use go_cache.Clock.{Instant}
use go_cache.Lru.{Arc, Prog, ret, panic, step}
use go_cache.Lru.Run.{IsSafe, HoldsEntries, step-IsSafe}
use go_cache.InMemory.{delete_expired}
use go_cache.InMemory.Calls.{sweep-IsSafe}
use go_cache.Janitor.{
  Channel, nil_channel, open_channel, Goroutine, unstarted, selecting, sweeping, returned, crashed,
  Finalizer, uncalled, sending, sent, State, at, Step, starts, ticks, sweeps, swept, crashes, calls,
  finalizes, stops, Steps, here, and_then, initial, NewStore, new_in_memory_store,
}

-- Which parts go together.
abbrev pub Fits : Goroutine → Channel → Finalizer → Type 0
Fits unstarted nil_channel uncalled = Unit {0}
Fits unstarted nil_channel (sending nil_channel) = Unit {0}
Fits selecting open_channel uncalled = Unit {0}
Fits selecting open_channel (sending c) = Unit {0}
Fits (sweeping p) open_channel uncalled = IsSafe p
Fits (sweeping p) open_channel (sending c) = IsSafe p
Fits returned open_channel sent = Unit {0}
Fits _ _ _ = ⊥

Fits-starts : (f : Finalizer) → Fits unstarted nil_channel f → Fits selecting open_channel f
Fits-starts uncalled h = tt
Fits-starts (sending c) h = tt
Fits-starts sent h = h

-- The goroutine goes from one place to another between its start and its end.
Fits-ticks :
    (p : Prog (Unit {0})) (c : Channel) (f : Finalizer)
    → IsSafe p
    → Fits selecting c f
    → Fits (sweeping p) c f
Fits-ticks p open_channel uncalled s h = s
Fits-ticks p open_channel (sending c) s h = s
Fits-ticks p open_channel sent s h = h
Fits-ticks p nil_channel f s h = absurd h

Fits-swept :
    (p : Prog (Unit {0})) (c : Channel) (f : Finalizer)
    → Fits (sweeping p) c f
    → IsSafe p × Fits selecting c f
Fits-swept p open_channel uncalled h = (h, tt)
Fits-swept p open_channel (sending c) h = (h, tt)
Fits-swept p open_channel sent h = absurd h
Fits-swept p nil_channel f h = absurd h

Fits-finalizes : (g : Goroutine) (c : Channel) → Fits g c uncalled → Fits g c (sending c)
Fits-finalizes unstarted nil_channel h = tt
Fits-finalizes selecting open_channel h = tt
Fits-finalizes (sweeping p) open_channel h = h
Fits-finalizes unstarted open_channel h = absurd h
Fits-finalizes selecting nil_channel h = absurd h
Fits-finalizes (sweeping p) nil_channel h = absurd h
Fits-finalizes returned open_channel h = absurd h
Fits-finalizes returned nil_channel h = absurd h
Fits-finalizes crashed c h = absurd h

Fits-sent : (g : Goroutine) (c : Channel) → Fits g c sent → g ≡ returned
Fits-sent unstarted nil_channel h = absurd h
Fits-sent unstarted open_channel h = absurd h
Fits-sent selecting nil_channel h = absurd h
Fits-sent selecting open_channel h = absurd h
Fits-sent (sweeping p) nil_channel h = absurd h
Fits-sent (sweeping p) open_channel h = absurd h
Fits-sent returned c h = refl
Fits-sent crashed c h = absurd h

Fits-returned : (c : Channel) (f : Finalizer) → Fits returned c f → f ≡ sent
Fits-returned nil_channel f h = absurd h
Fits-returned open_channel uncalled h = absurd h
Fits-returned open_channel (sending c) h = absurd h
Fits-returned open_channel sent h = refl

Fits-end :
    (g : Goroutine) (c : Channel) (f : Finalizer)
    → Fits g c f
    → (g ≢ crashed) × ((f ≡ sent) ↔ (g ≡ returned))
Fits-end g c f h = (
  λ e. subst (λ (x : Goroutine). Fits x c f) e h,
  (
    λ e. Fits-sent g c (subst (λ (x : Finalizer). Fits g c x) e h),
    λ e. Fits-returned c f (subst (λ (x : Goroutine). Fits x c f) e h),
  ),
)

module _ (arc : Arc) where
  abbrev pub Inv : State arc → Type 0
  Inv (at g c f l) = Fits g c f × HoldsEntries arc l

  delete_expired-IsSafe : (clock : ℕ → Instant) → IsSafe (delete_expired clock)
  unfolding delete_expired
  delete_expired-IsSafe clock ks = sweep-IsSafe clock 0 ks

  Step-Inv : (s t : State arc) → Step arc s t → Inv s → Inv t
  Step-Inv s t (starts {f = f}) i = (Fits-starts f i.0, i.1)
  Step-Inv s t (ticks {c = c} {f = f} clock) i =
      (Fits-ticks (delete_expired clock) c f (delete_expired-IsSafe clock) i.0, i.1)
  Step-Inv s t (sweeps {p = p} {c = c} {f = f} {l = l}) i =
      let old = Fits-swept p c f i.0 in
      let new = step-IsSafe arc p l old.0 i.1 in
      (Fits-ticks (step arc p l).0 c f new.0 old.1, new.1)
  Step-Inv s t (swept {c = c} {f = f}) i = ((Fits-swept (ret tt) c f i.0).1, i.1)
  Step-Inv s t (crashes {c = c} {f = f}) i = absurd (Fits-swept panic c f i.0).0
  Step-Inv s t (calls {l = l} p h) i = (i.0, (step-IsSafe arc p l h i.1).1)
  Step-Inv s t (finalizes {g = g} {c = c}) i = (Fits-finalizes g c i.0, i.1)
  Step-Inv s t stops i = (tt, i.1)

  pub Steps-Inv : {s t : State arc} → Steps arc s t → Inv s → Inv t
  Steps-Inv here i = i
  Steps-Inv (and_then r x) i = Step-Inv _ _ x (Steps-Inv r i)

  -- A new store is over a new LRU cache.
  pub new-lru :
      (n d i : ℤ) (m : Bool) (label : Bytes) {new : NewStore arc}
      → new_in_memory_store arc n d i m label ≡ some new
      → arc.new_arc n ≡ some new.lru
  unfolding new_in_memory_store
  new-lru n d i m label {new} h = by_arc (arc.new_arc n) refl
    where
      by_arc : (o : Option arc.Lru) → arc.new_arc n ≡ o → arc.new_arc n ≡ some new.lru
      by_arc none e = absurd (ground arith)
      by_arc (some l) e = ground arith

  pub new-HoldsEntries :
      (n d i : ℤ) (m : Bool) (label : Bytes) {new : NewStore arc}
      → new_in_memory_store arc n d i m label ≡ some new
      → HoldsEntries arc new.lru
  new-HoldsEntries n d i m label {new} h k =
      subst IsEntryIfAny (sym (arc.peek-new_arc n new.lru k (new-lru n d i m label h))) tt

  -- Whenever the janitor of a new store is looked at, while other goroutines run safe code on the
  -- store, its goroutine has not crashed, the store holds entries only, and the finalizer has sent
  -- its stop exactly if the goroutine has returned.
  pub janitor_safe :
      (n d i : ℤ) (m : Bool) (label : Bytes) {new : NewStore arc} {g : Goroutine} {c : Channel}
      {f : Finalizer} {l : arc.Lru}
      → new_in_memory_store arc n d i m label ≡ some new
      → Steps arc (initial arc new.lru) (at g c f l)
      → (g ≢ crashed) × HoldsEntries arc l × ((f ≡ sent) ↔ (g ≡ returned))
  janitor_safe n d i m label {new} {g} {c} {f} h r =
      let end = Steps-Inv r (tt, new-HoldsEntries n d i m label h) in
      let fit = Fits-end g c f end.0 in (fit.0, end.1, fit.1)
