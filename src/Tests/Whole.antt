-- ===== src/Tests/Whole.antt =====
-- The parts put together: a page cache over a generic cache over the in-memory store, two in-memory
-- stores with gauges in one registry, and the service of the example.
use go_cache.Prelude.{
  inl, ℕ, ◌≡◌, refl, Option, none, some, List, [], ◌∷◌, Bytes, codes, bytes_eq, bytes_eq_refl, true,
  false, if◌then◌else◌, arith,
}
use go_cache.Prelude.Int.{ℤ, pos}
use go_cache.Outcome.{returns}
use go_cache.Error.{Error, store_error, cache_miss, is_cache_miss}
use go_cache.Lru.Recent.{recent, Cache}
use go_cache.Janitor.{NewStore}
use go_cache.Store.Local.{World, local, local-KeepsData}
use go_cache.Generic.{alone, settings, new_cache_with_pool}
use go_cache.Generic.Reads
use go_cache.InMemory
use go_cache.Lru.{run}
use go_cache.Keys.{get_key}
use go_cache.Value.{Value, nil, string, int, entry, entry_type, pointer}
use go_cache.Example.{in_memory_cache, new_value, reply, entry_handler, set_later}
use go_cache.Example.Twice.{entry_handler-twice}
use go_cache.Metrics.{Collector, opts_of, Prometheus, go_cache_opts, help_of, new_metered_store}
use go_cache.Metrics.Taken.{gauge_of, second_gauge}
use go_cache.Tests.Data.{one, codec, store_settings, world, at, at-Reads}
use go_cache.Generic.Methods.{Method, perform}
use go_cache.Generic.Methods.Counted.{counted, SameEnd}
use go_cache.Generic.Methods.OneCall.{perform-SameEnd}
use go_cache.Clock.{whole_seconds}
use go_cache.Redis.Stores.{Env}
use go_cache.Example.Setup.{Makers, ready, set_up}
use go_cache.Example.Setup.Answered.{lru_made, caches_made, set_up_lem}
use go_cache.Clock.{Instant}
use go_cache.Generic.{GenericCache}
use go_cache.InMemory.Reference.{History, transcript}
use go_cache.InMemory.Reference.Moved.{view}
use go_cache.Store.Refines.{Call, an_int, run_calls}
use go_cache.Store.Refines.Agree.{cache_calls-History}
use go_cache.Tests.Data.{key, empty, empty-HoldsEntries}

-- A registry of collectors under their names.
abbrev Gauge : Type 0
Gauge = Collector ((ℕ → Cache) → ℕ)

abbrev find : List (Bytes × Gauge) → Bytes → Option Gauge
find [] name = none
find ((n, c) ∷ cs) name = if bytes_eq n name then some c else find cs name

abbrev accept : Option Gauge → Gauge → List (Bytes × Gauge) → Option Error × List (Bytes × Gauge)
accept (some b) c r = (some (store_error (codes "taken")), r)
accept none c r = (none, ((opts_of c).name, c) ∷ r)

abbrev register : Gauge → List (Bytes × Gauge) → Option Error × List (Bytes × Gauge)
register c r = accept (find r (opts_of c).name) c r

accept_lem :
    (o : Option Gauge) (c : Gauge) (r : List (Bytes × Gauge))
    → (accept o c r).0 ≡ none
    → find (accept o c r).1 (opts_of c).name ≡ some c
accept_lem (some b) c r h = absurd (cc)
accept_lem none c r h = rw (bytes_eq_refl (opts_of c).name) refl

abbrev registry : Prometheus ((ℕ → Cache) → ℕ)
registry = record {
  Registry = List (Bytes × Gauge);
  full_name = λ o. o.name;
  register = register;
  find = find;
  find-register = λ c r h. accept_lem (find r (opts_of c).name) c r h;
  register-taken = λ b c r h. (store_error (codes "taken"), rw h refl);
}

second_gauge_example :
    let (s1, r1) =
      new_metered_store recent registry 0 (pos 10) (pos 0) (pos 0) true (codes "a") [] in
    let (s2, r2) =
      new_metered_store recent registry 1 (pos 20) (pos 0) (pos 5) true (codes "a") r1 in
    ((s : NewStore recent) × (s1 ≡ some s))
    × ((s : NewStore recent) × (s2 ≡ some s))
    × (r2 ≡ r1)
    × (registry.find r2 (registry.full_name (go_cache_opts (codes "a") (help_of (codes "a"))))
        ≡ some (gauge_of recent registry (codes "a") 0))
second_gauge_example =
    second_gauge recent registry (codes "a") 0 1 (pos 10) (pos 0) (pos 0) (pos 20) (pos 0) (pos 5)
      [] (omega arith) (omega arith) refl

-- The third handler: its cache does not encrypt, and its store has a default expiry of 30 ns.
entry_handler-twice_example :
    let store = local recent (pos 30) in
    let c = in_memory_cache (some tt) in
    let name = codes "cached-in-memory-lru-with-expiry" in
    let d = string (codes "Hi Mom!") in
    let new = new_value codec store name d c (at 1000) in
    (entry_handler codec store name d c (at 1000) world ≡ (returns (reply new (some new)), world))
    × (w2 w3 : World recent) × (a x : ℤ) × (set_later codec store name d c new (at 1001) world
        ≡ (returns none, w2))
    × (entry_handler codec store name d c (at 1002) w2 ≡ (returns (reply (entry d a x) none), w3))
unfolding new_cache_with_pool Reads.get run InMemory.get is_cache_miss
entry_handler-twice_example =
    entry_handler-twice codec (local recent (pos 30)) (in_memory_cache (some tt)) tt refl refl
      (codes "cached-in-memory-lru-with-expiry") (string (codes "Hi Mom!")) cache_miss (at 1000)
      (at 1001) (at 1002) world world (inl refl) refl
      (local-KeepsData recent (pos 30)
        (get_key codec (settings (in_memory_cache (some tt)))
          (codes "cached-in-memory-lru-with-expiry"))
        180000000000 1000 world at-Reads (omega arith) (omega arith) (omega arith))

-- A `Get` with encryption on: one call of the store.
perform-SameEnd_example :
    let get = Method.get (codes "key") (pointer entry_type) nil in
    SameEnd none 3
      (perform codec (counted one) (alone store_settings) get (none, 3))
      (perform codec one (alone store_settings) get none)
perform-SameEnd_example =
    perform-SameEnd one codec (alone store_settings)
      (Method.get (codes "key") (pointer entry_type) nil) none 3

-- The service over stores of one value.
abbrev makers : Makers recent one
makers = record {
  redis = λ at. tt;
  read_only = λ c. tt;
  persistence = λ exp. tt;
  lru_expiry = λ new. tt;
}

abbrev no_env : Env
no_env = record { redis_master_identifier = []; redis_password = []; redis_sentinel_address = none }

set_up_lem_example :
    (w1 : Option Value) × (l : Cache) × (recent.new_arc (pos 1000) ≡ some l)
    × (set_up recent one (λ u. some (codes "localhost")) none no_env makers none ≡ (
      returns
          (ready (caches_made recent one makers (codes "localhost") (codes "localhost") no_env l)),
      w1,
    ))
    × (whole_seconds (lru_made recent one makers l).default_exp ≡ pos 0)
set_up_lem_example =
    set_up_lem recent one makers (λ u. some (codes "localhost")) none no_env (codes "localhost")
      (codes "localhost") none (λ p. refl)
      (λ p key v exp w. record {
        after_set = some (string v);
        after_get = some (string v);
        is_set = refl;
        is_got = refl;
      })
      refl refl refl (omega arith)

abbrev plain_cache : GenericCache (Unit {0})
plain_cache = alone (record store_settings { encrypt_data = false })

-- An addition for the time of the cache, a decrement, a read and a deletion, listed last first.
abbrev cache_calls : List (Bytes × Call × Instant)
cache_calls =
    (key, Call.delete, at 1002)
    ∷ (key, Call.get an_int, at 1001)
    ∷ (key, Call.decrement 7, at 1001)
    ∷ (key, Call.add (int (pos 5)) (pos 0), at 1000)
    ∷ []

cache_calls-History_example :
    (h : History
      (pos 0)
      (view recent empty)
      (view recent (run_calls recent (pos 0) codec plain_cache cache_calls empty).1))
    × (transcript h ≡ (run_calls recent (pos 0) codec plain_cache cache_calls empty).0)
cache_calls-History_example =
    cache_calls-History recent (pos 0) codec plain_cache refl refl cache_calls empty
      empty-HoldsEntries
