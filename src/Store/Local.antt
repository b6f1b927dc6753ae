-- ===== src/Store/Local.antt =====
-- The store of inmemory.go as a store that generic.go can use: its world is the LRU cache and what
-- the clock reads. Its pool is not a `*RedisStore`, so that the calls for one are never made.
use go_cache.Prelude.{Option, ℕ, ◌+◌, ◌/◌, ◌≤◌, ◌<◌, ◌≡◌, ap, ◌∙◌, true, false, Bytes, arith}
use go_cache.Prelude.Int.{ℤ, pos}
use go_cache.Clock.{Instant, second, Reads}
use go_cache.Outcome.{Outcome, panics}
use go_cache.Value.{Value, entry, entry_type, Target, pointer, expired}
use go_cache.Lru.{Arc, Prog, run}
use go_cache.Error.{Error}
use go_cache.InMemory
use go_cache.InMemory.{Got, got, new_entry}
use go_cache.InMemory.Expiry.{past, expired-new_entry, set_lem, get-set}
use go_cache.Store.{CacheStore}
use go_cache.InMemory.Entries.{Sees}
use go_cache.Generic.RoundTrip.{KeepsData}

pub record World (arc : Arc) : Type 0 where
  pub lru : arc.Lru
  pub now : Instant

-- A method runs alone, while the clock stands.
abbrev pub alone : (arc : Arc) {A : Type 0} → Prog A → World arc → Outcome A × World arc
alone arc p w = let (o, l) = run arc p w.lru in (o, record w { lru = l })

-- A store with the given `DefaultExp`.
abbrev pub local : Arc → ℤ → CacheStore
local arc d = record {
  World = World arc;
  Pool = Unit {0};
  is_store = λ p. true;
  is_redis = λ p. false;
  get = λ p key t w. alone arc (InMemory.get key t w.now) w;
  set = λ p key v exp w. alone arc (InMemory.set d key v exp w.now) w;
  add = λ p key v exp w. alone arc (InMemory.add d key v exp w.now) w;
  replace = λ p key v exp w. alone arc (InMemory.replace d key v exp w.now) w;
  delete = λ p key w. alone arc (InMemory.delete key) w;
  increment = λ p key n w. alone arc (InMemory.increment key n) w;
  decrement = λ p key n w. alone arc (InMemory.decrement key n) w;
  flush = λ p w. alone arc InMemory.flush w;
  expire_at = λ p key n w. (panics, w);
  get_expires_in = λ p key w. (panics, w);
  increment_atomic = λ p key n w. (panics, w);
  increment_check_set = λ p key n w. (panics, w);
}

not_past : (x n : ℕ) (now : Instant) → second ≤ x → past (n + x / second) n now ≡ false
not_past x n now h = ground arith

-- Under a sane clock what is set for a second or more is seen as long as the clock stands.
pub local-Sees :
    (arc : Arc) (d : ℤ) (key : Bytes) (v : Value) (t : Target) (x n : ℕ) (w : World arc)
    → Reads w.now n
    → 0 < n
    → second ≤ x
    → n + x / second < 4611686018427387904
    → Sees t
        (new_entry d v (pos x) w.now)
        (run arc
          (InMemory.get key t w.now)
          (run arc (InMemory.set d key v (pos x) w.now) w.lru).1).0
local-Sees arc d key v t x n w r p q h =
    let fresh : expired (new_entry d v (pos x) w.now) w.now ≡ false =
      expired-new_entry d v x n n w.now w.now r r p (omega arith) h ∙ not_past x n w.now q in
    ((get-set arc d w.lru key v (pos x) w.now w.now t).1 fresh).0

-- Under a sane clock the store keeps the data of an entry that it is handed for a second or more,
-- at least as long as the clock stands.
pub local-KeepsData :
    (arc : Arc) (d : ℤ) (key : Bytes) (x n : ℕ) (w : World arc)
    → Reads w.now n
    → 0 < n
    → second ≤ x
    → n + x / second < 4611686018427387904
    → KeepsData (local arc d) tt key (pos x) w
unfolding new_entry
local-KeepsData arc d key x n w r p q h v a e =
    let stored = new_entry d (entry v a e) (pos x) w.now in
    let l1 = (run arc (InMemory.set d key (entry v a e) (pos x) w.now) w.lru).1 in
    let l2 = (run arc (InMemory.get key (pointer entry_type) w.now) l1).1 in
    record {
      after_set = record w { lru = l1 };
      after_get = record w { lru = l2 };
      added = stored.time_added;
      expires = stored.expires_at;
      is_set =
          ap (λ (o : Outcome (Option Error)). (o, record w { lru = l1 }))
            (set_lem arc d w.lru key (entry v a e) (pos x) w.now).0;
      is_got =
          ap (λ (o : Outcome Got). (o, record w { lru = l2 }))
            (local-Sees arc d key (entry v a e) (pointer entry_type) x n w r p q h);
    }
