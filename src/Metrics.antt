-- ===== src/Metrics.antt =====
-- metrics.go: the collectors that the program registers, and the gauge of an in-memory store
-- (inmemory.go). The registry of prometheus is a parameter. What is logged is not modelled.
pub mod Taken
pub mod Counts
use go_cache.Prelude.{ℕ, ◌≡◌, Option, none, some, List, [], ◌∷◌, ◌++◌, Bool, Bytes, codes}
use go_cache.Prelude.Int.{ℤ}
use go_cache.Error.{Error}
use go_cache.Lru.{Arc}
use go_cache.Janitor.{NewStore, new_in_memory_store}

pub record Opts : Type 0 where
  pub subsystem : Bytes
  pub name : Bytes
  pub help : Bytes

-- `prometheus.NewCounterVec`, `NewSummary` and `NewGaugeFunc`; a gauge has the function that it
-- reads.
pub data Collector (R : Type 0) : Type 0 where
  counter_vec : Opts → List Bytes → Collector R
  summary : Opts → Collector R
  gauge_func : Opts → R → Collector R

abbrev pub opts_of : {R : Type 0} → Collector R → Opts
opts_of (counter_vec o labels) = o
opts_of (summary o) = o
opts_of (gauge_func o f) = o

-- The registry: `find` is what it collects under a full name. A collector that it accepts is
-- collected, and one under a name that is taken is refused.
pub record Prometheus (R : Type 0) : Type 1 where
  pub Registry : Type 0
  pub full_name : Opts → Bytes
  pub register : Collector R → Registry → Option Error × Registry
  pub find : Registry → Bytes → Option (Collector R)
  pub find-register :
      (c : Collector R) (r : Registry)
      → (register c r).0 ≡ none
      → find (register c r).1 (full_name (opts_of c)) ≡ some c
  pub register-taken :
      (b c : Collector R) (r : Registry)
      → find r (full_name (opts_of c)) ≡ some b
      → (e : Error) × (register c r ≡ (some e, r))

abbrev pub go_cache_opts : Bytes → Bytes → Opts
go_cache_opts name help = record { subsystem = codes "go_cache"; name = name; help = help }

module _ {R : Type 0} (p : Prometheus R) where
  open p use {Registry, register}

  -- A collector that is already there is returned as it is; a new one is returned whether the
  -- registry accepts it or not.
  abbrev pub init_counter_vec :
      Option (Collector R) → Bytes → Bytes → Registry → Collector R × Registry
  init_counter_vec (some m) name help r = (m, r)
  init_counter_vec none name help r =
      let m = counter_vec (go_cache_opts name help) (codes "status_code" ∷ []) in
      (m, (register m r).1)

  abbrev pub init_summary : Option (Collector R) → Bytes → Bytes → Registry → Collector R × Registry
  init_summary (some m) name help r = (m, r)
  init_summary none name help r = let m = summary (go_cache_opts name help) in (m, (register m r).1)

  unfoldable pub init_gauge_with_func : R → Bytes → Bytes → Registry → Option Error × Registry
  init_gauge_with_func f name help r = register (gauge_func (go_cache_opts name help) f) r

-- The text that describes the gauge of a store.
abbrev pub help_of : Bytes → Bytes
help_of label = codes "Total count the number of items in the in-memory cache for " ++ label

module _ (arc : Arc) (p : Prometheus ((ℕ → arc.Lru) → ℕ)) where
  open p use {Registry}

  -- What the gauge of store `i` reads, of all stores as they are then: `float64(lru.Len())`.
  abbrev pub items : ℕ → (ℕ → arc.Lru) → ℕ
  items i stores = arc.len (stores i)

  -- The error of the registration is dropped.
  abbrev pub make_gauge : ℕ → Option Bytes → Registry → Registry
  make_gauge i none r = r
  make_gauge i (some label) r = (init_gauge_with_func p (items i) label (help_of label) r).1

  -- `NewInMemoryStore`, of store `i`, with what it registers.
  unfoldable pub new_metered_store :
      ℕ → ℤ → ℤ → ℤ → Bool → Bytes → Registry → Option (NewStore arc) × Registry
  unfolding init_gauge_with_func
  new_metered_store i max_entries default_exp interval create_metric label r =
      elim (new_in_memory_store arc max_entries default_exp interval create_metric label) [
        | none ↦ (none, r)
        | some s ↦ (some s, make_gauge i s.gauge r)
      ]
