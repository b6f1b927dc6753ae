-- ===== src/Page/Atomic.antt =====
-- `CachePageAtomic` (galapagos_gin/cache/cache.go): requests in goroutines of their own, each of
-- which takes one mutex, runs its page, and gives the mutex back when the page returns or panics.
-- A page is any code that acts on what the goroutines share, one action at a time.
pub mod Serial
pub mod Pages
pub mod OneByOne
use go_cache.Prelude.{ℕ, List, [], ◌∷◌, Bool, true, false, ◌==◌, if◌then◌else◌}
use go_cache.Outcome.{Outcome, returns, panics}

-- An action changes the shared world, and the code goes on from what it has read of it.
pub data Code (W A : Type 0) : Type 0 where
  ends : A → Code W A
  fails : Code W A
  acts : (W → W) → (W → Code W A) → Code W A

-- The code runs alone.
unfoldable pub run_alone : {W A : Type 0} → Code W A → W → Outcome A × W
run_alone (ends a) w = (returns a, w)
run_alone fails w = (panics, w)
run_alone (acts change next) w = run_alone (next w) (change w)

-- Where a request is: at `m.Lock()`, in its page, or past the deferred `m.Unlock()`.
pub data Request (W A : Type 0) : Type 0 where
  waiting : Request W A
  inside : Code W A → Request W A
  finished : Outcome A → Request W A

pub record Shared (W A : Type 0) : Type 0 where
  pub requests : ℕ → Request W A
  pub is_locked : Bool
  pub world : W

abbrev pub update {ℓ} : {A : Type ℓ} → (ℕ → A) → ℕ → A → ℕ → A
update f i a j = if i == j then a else f j

module _ {W A : Type 0} (page : ℕ → Code W A) where
  -- A request at the mutex goes in if it is free, and stays where it is if not.
  abbrev pub lock : ℕ → Shared W A → Shared W A
  lock i s =
      if s.is_locked
      then s
      else record s { requests = update s.requests i (inside (page i)); is_locked = true }

  -- A request in its page makes one action; at the end of the page, or in a panic, it unlocks.
  abbrev pub proceed : ℕ → Code W A → Shared W A → Shared W A
  proceed i (ends a) s = record s {
    requests = update s.requests i (finished (returns a));
    is_locked = false;
  }
  proceed i fails s = record s {
    requests = update s.requests i (finished panics);
    is_locked = false;
  }
  proceed i (acts change next) s = record s {
    requests = update s.requests i (inside (next s.world));
    world = change s.world;
  }

  unfoldable pub turn_of : ℕ → Request W A → Shared W A → Shared W A
  turn_of i waiting s = lock i s
  turn_of i (inside c) s = proceed i c s
  turn_of i (finished o) s = s

  -- A schedule names whose turn it is, the last first.
  unfoldable pub schedule : List ℕ → Shared W A → Shared W A
  unfolding turn_of
  schedule [] s = s
  schedule (i ∷ earlier) s = let t = schedule earlier s in turn_of i (t.requests i) t

  abbrev pub all_waiting : W → Shared W A
  all_waiting w = record { requests = λ i. waiting; is_locked = false; world = w }
