-- ===== src/Janitor.antt =====
-- inmemory.go: `NewInMemoryStore`, and the goroutine that sweeps the store at each tick, with the
-- finalizer that stops it. A step is one action of the goroutine, of the finalizer, or of a
-- goroutine that uses the store. The scheduler and the garbage collector choose the order.
pub mod Safe
pub mod Stop
pub mod New
use go_cache.Prelude.{ℕ, Option, none, some, Bool, Bytes, codes, length, ◌==◌, if◌then◌else◌}
use go_cache.Prelude.Int.{ℤ, pos, ltb_ℤ}
use go_cache.Clock.{Instant}
use go_cache.Lru.{Arc, Prog, ret, panic, step}
use go_cache.Lru.Run.{IsSafe}
use go_cache.InMemory.{delete_expired}

-- `janitor.stop`: nil until the goroutine has made the channel.
pub data Channel : Type 0 where
  nil_channel open_channel : Channel

-- Where the goroutine of the janitor is: not yet scheduled, at the `select`, in the sweep with the
-- code that is left of it, or at its end.
pub data Goroutine : Type 0 where
  unstarted selecting : Goroutine
  sweeping : Prog (Unit {0}) → Goroutine
  returned crashed : Goroutine

-- Where `stopJanitor` is: not called, at its send with the channel that it has read, or done.
pub data Finalizer : Type 0 where
  uncalled : Finalizer
  sending : Channel → Finalizer
  sent : Finalizer

module _ (arc : Arc) where
  open arc use {Lru}

  pub data State : Type 0 where
    at : Goroutine → Channel → Finalizer → Lru → State

  -- A send on a nil channel blocks for ever; one on the open channel, which has no buffer, is met by
  -- the `select`. `ticks` is given what the clock reads in the sweep.
  pub data Step : State → State → Type 0 where
    starts :
        {f : Finalizer} {l : Lru}
        → Step (at unstarted nil_channel f l) (at selecting open_channel f l)
    ticks :
        {c : Channel} {f : Finalizer} {l : Lru} (clock : ℕ → Instant)
        → Step (at selecting c f l) (at (sweeping (delete_expired clock)) c f l)
    sweeps :
        {p : Prog (Unit {0})} {c : Channel} {f : Finalizer} {l : Lru}
        → Step (at (sweeping p) c f l) (at (sweeping (step arc p l).0) c f (step arc p l).1)
    swept :
        {c : Channel} {f : Finalizer} {l : Lru}
        → Step (at (sweeping (ret tt)) c f l) (at selecting c f l)
    crashes :
        {c : Channel} {f : Finalizer} {l : Lru}
        → Step (at (sweeping panic) c f l) (at crashed c f l)
    calls :
        {g : Goroutine} {c : Channel} {f : Finalizer} {l : Lru} (p : Prog (Unit {0}))
        → IsSafe p
        → Step (at g c f l) (at g c f (step arc p l).1)
    finalizes :
        {g : Goroutine} {c : Channel} {l : Lru} → Step (at g c uncalled l) (at g c (sending c) l)
    stops :
        {l : Lru}
        → Step
            (at selecting open_channel (sending open_channel) l)
            (at returned open_channel sent l)

  pub data Steps : State → State → Type 0 where
    here : {s : State} → Steps s s
    and_then : {s t u : State} → Steps s t → Step t u → Steps s u

  -- A new store, with the interval of its janitor and the label of its gauge, if it has them.
  pub record NewStore : Type 0 where
    pub lru : Lru
    pub default_exp : ℤ
    pub janitor : Option ℤ
    pub gauge : Option Bytes

  abbrev pub gauge_label : Bytes → Bytes
  gauge_label label = if length label == 0 then codes "inmemory_cache_total_items_cnt" else label

  abbrev pub over_lru : Lru → ℤ → ℤ → Bool → Bytes → NewStore
  over_lru l default_exp interval create_metric label = record {
    lru = l;
    default_exp = default_exp;
    janitor = if ltb_ℤ (pos 0) interval then some interval else none;
    gauge = if create_metric then some (gauge_label label) else none;
  }

  unfoldable pub new_in_memory_store : ℤ → ℤ → ℤ → Bool → Bytes → Option NewStore
  new_in_memory_store max_entries default_exp interval create_metric label =
      elim (arc.new_arc max_entries) [
        | none ↦ none
        | some l ↦ some (over_lru l default_exp interval create_metric label)
      ]

  -- The janitor of a new store, before anything has run. A store whose interval is not positive
  -- has none, and its states are among these: those in which other goroutines alone have run.
  abbrev pub initial : Lru → State
  initial l = at unstarted nil_channel uncalled l
