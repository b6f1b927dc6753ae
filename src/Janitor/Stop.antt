-- ===== src/Janitor/Stop.antt =====
-- Whether the finalizer of the janitor (inmemory.go) gets its stop across.
use go_cache.Prelude.{◌≡◌, ◌≢◌, refl, ap, some, Bool, Bytes, arith}
use go_cache.Prelude.Int.{ℤ}
use go_cache.Lru.{
  Arc, Prog, ret, panic, lru_get, lru_add, lru_remove, lru_keys, lru_len, lru_purge, step,
}
use go_cache.Lru.Run.{IsSafe, HoldsEntries, step-IsSafe}
use go_cache.Janitor.{
  Channel, nil_channel, open_channel, Goroutine, unstarted, selecting, sweeping, returned, crashed,
  Finalizer, uncalled, sending, sent, State, at, Step, starts, ticks, sweeps, swept, crashes, calls,
  finalizes, stops, Steps, here, and_then, initial, NewStore, new_in_memory_store,
}
use go_cache.Janitor.Safe.{Fits, Steps-Inv, new-HoldsEntries}

module _ (arc : Arc) where
  open arc use {Lru}

  -- The finalizer is at a send on the nil channel, and the goroutine has not returned.
  IsStuck : State arc → Type 0
  IsStuck (at g c f l) = (f ≡ sending nil_channel) × (g ≢ returned)

  Step-IsStuck : (s t : State arc) → Step arc s t → IsStuck s → IsStuck t
  unfolding IsStuck
  Step-IsStuck s t starts h = (h.0, λ e. ground arith)
  Step-IsStuck s t (ticks clock) h = (h.0, λ e. ground arith)
  Step-IsStuck s t sweeps h = (h.0, λ e. ground arith)
  Step-IsStuck s t swept h = (h.0, λ e. ground arith)
  Step-IsStuck s t crashes h = (h.0, λ e. ground arith)
  Step-IsStuck s t (calls p i) h = h
  Step-IsStuck s t finalizes h = absurd (ground arith)
  Step-IsStuck s t stops h = absurd (ground arith)

  Steps-IsStuck : {s t : State arc} → Steps arc s t → IsStuck s → IsStuck t
  Steps-IsStuck here h = h
  Steps-IsStuck (and_then r x) h = Step-IsStuck _ _ x (Steps-IsStuck r h)

  unstarted-nil : (c : Channel) (f : Finalizer) → Fits unstarted c f → c ≡ nil_channel
  unstarted-nil nil_channel f h = refl
  unstarted-nil open_channel f h = absurd h

  -- A new store has a janitor whose goroutine has not run when the finalizer is called and reads
  -- the channel. Whatever steps follow, the finalizer is at its send on the nil channel, and the
  -- goroutine has not returned.
  pub stop_too_early :
      (n d i tick : ℤ) (m : Bool) (label : Bytes) {new : NewStore arc} {c c' : Channel} {l l' : Lru}
      {g : Goroutine} {f : Finalizer}
      → new_in_memory_store arc n d i m label ≡ some new
      → new.janitor ≡ some tick
      → Steps arc (initial arc new.lru) (at unstarted c uncalled l)
      → Steps arc (at unstarted c (sending c) l) (at g c' f l')
      → Step arc (at unstarted c uncalled l) (at unstarted c (sending c) l)
        × (f ≡ sending nil_channel)
        × (g ≢ returned)
  unfolding IsStuck
  stop_too_early n d i tick m label {new} {c} made has before after =
      let now = Steps-Inv arc before (tt, new-HoldsEntries arc n d i m label made) in
      let stuck =
        Steps-IsStuck after (ap sending (unstarted-nil c uncalled now.0), λ e. ground arith) in
      (finalizes, stuck.0, stuck.1)

  first_then : {s t u : State arc} → Step arc s t → Steps arc t u → Steps arc s u
  first_then x here = and_then here x
  first_then x (and_then r y) = and_then (first_then x r) y

  -- A sweep comes to its end.
  sweep_ends :
      (p : Prog (Unit {0})) (c : Channel) (f : Finalizer) (l : Lru)
      → IsSafe p
      → HoldsEntries arc l
      → (l' : Lru) × Steps arc (at (sweeping p) c f l) (at (sweeping (ret tt)) c f l')
  unfolding step
  sweep_ends (ret u) c f l s h = (l, here)
  sweep_ends panic c f l s h = absurd s
  sweep_ends (lru_get k q) c f l s h =
      let n = step-IsSafe arc (lru_get k q) l s h in
      let (l', r) = sweep_ends (q (arc.get l k).0) c f (arc.get l k).1 n.0 n.1 in
      (l', first_then sweeps r)
  sweep_ends (lru_add k v p) c f l s h =
      let n = step-IsSafe arc (lru_add k v p) l s h in
      let (l', r) = sweep_ends p c f (arc.add l k v) n.0 n.1 in (l', first_then sweeps r)
  sweep_ends (lru_remove k p) c f l s h =
      let n = step-IsSafe arc (lru_remove k p) l s h in
      let (l', r) = sweep_ends p c f (arc.remove l k) n.0 n.1 in (l', first_then sweeps r)
  sweep_ends (lru_keys q) c f l s h =
      let n = step-IsSafe arc (lru_keys q) l s h in
      let (l', r) = sweep_ends (q (arc.keys l)) c f l n.0 n.1 in (l', first_then sweeps r)
  sweep_ends (lru_len q) c f l s h =
      let n = step-IsSafe arc (lru_len q) l s h in
      let (l', r) = sweep_ends (q (arc.len l)) c f l n.0 n.1 in (l', first_then sweeps r)
  sweep_ends (lru_purge p) c f l s h =
      let n = step-IsSafe arc (lru_purge p) l s h in
      let (l', r) = sweep_ends p c f (arc.purge l) n.0 n.1 in (l', first_then sweeps r)

  -- From where the goroutine is, it can come to its end.
  can_stop :
      (g : Goroutine) (c : Channel) (l : Lru)
      → Fits g c (sending open_channel)
      → HoldsEntries arc l
      → (l' : Lru) × Steps arc (at g c (sending open_channel) l) (at returned open_channel sent l')
  can_stop unstarted nil_channel l i h = absurd i
  can_stop unstarted open_channel l i h = absurd i
  can_stop selecting nil_channel l i h = absurd i
  can_stop selecting open_channel l i h = (l, and_then here stops)
  can_stop (sweeping p) nil_channel l i h = absurd i
  can_stop (sweeping p) open_channel l i h =
      let (l', r) = sweep_ends p open_channel (sending open_channel) l i h in
      (l', and_then (and_then r swept) stops)
  can_stop returned nil_channel l i h = absurd i
  can_stop returned open_channel l i h = absurd i
  can_stop crashed c l i h = absurd i

  -- If the finalizer of a new store is at a send on the channel that the goroutine has made, then
  -- steps lead to where the goroutine has returned and the stop is sent.
  pub stop_possible :
      (n d i : ℤ) (m : Bool) (label : Bytes) {new : NewStore arc} {g : Goroutine} {c : Channel}
      {l : Lru}
      → new_in_memory_store arc n d i m label ≡ some new
      → Steps arc (initial arc new.lru) (at g c (sending open_channel) l)
      → (l' : Lru) × Steps arc (at g c (sending open_channel) l) (at returned open_channel sent l')
  stop_possible n d i m label {new} {g} {c} {l} h r =
      let now = Steps-Inv arc r (tt, new-HoldsEntries arc n d i m label h) in
      can_stop g c l now.0 now.1
