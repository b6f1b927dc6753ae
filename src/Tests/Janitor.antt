-- ===== src/Tests/Janitor.antt =====
-- The janitor and the constructor of inmemory.go, tried on a store for eleven entries.
use go_cache.Prelude.{ℕ, ◌≡◌, ◌≢◌, ◌↔◌, refl, some, true, codes}
use go_cache.Prelude.Int.{pos}
use go_cache.Clock.{Instant}
use go_cache.Lru.Recent.{recent, Cache}
use go_cache.Lru.Run.{HoldsEntries}
use go_cache.InMemory.{delete_expired}
use go_cache.Janitor.{
  nil_channel, open_channel, Goroutine, unstarted, Step, selecting, sweeping, returned, crashed,
  uncalled, sending, sent, at, starts, ticks, finalizes, Steps, here, and_then, initial, NewStore,
  new_in_memory_store,
}
use go_cache.Janitor.Safe.{janitor_safe}
use go_cache.Janitor.Stop.{stop_too_early, stop_possible}
use go_cache.Tests.Data
use go_cache.Tests.Data.{empty}

abbrev new : NewStore recent
new = record {
  lru = empty;
  default_exp = pos 60;
  janitor = some (pos 5);
  gauge = some (codes "items");
}

made : new_in_memory_store recent (pos 11) (pos 60) (pos 5) true (codes "items") ≡ some new
unfolding new_in_memory_store
made = refl

abbrev clock : ℕ → Instant
clock i = Data.at 1000

abbrev busy : Goroutine
busy = sweeping (delete_expired clock)

to_sweep : Steps recent (initial recent empty) (at busy open_channel uncalled empty)
to_sweep = and_then (and_then here starts) (ticks clock)

to_send : Steps recent (initial recent empty) (at busy open_channel (sending open_channel) empty)
to_send = and_then to_sweep finalizes

janitor_safe_example :
    (busy ≢ crashed)
    × HoldsEntries recent empty
    × ((sending open_channel ≡ sent) ↔ (busy ≡ returned))
janitor_safe_example =
    janitor_safe recent (pos 11) (pos 60) (pos 5) true (codes "items") made to_send

stop_possible_example :
    (l : Cache) × Steps recent
      (at busy open_channel (sending open_channel) empty)
      (at returned open_channel sent l)
stop_possible_example =
    stop_possible recent (pos 11) (pos 60) (pos 5) true (codes "items") made to_send

stop_too_early_example :
    Step recent
      (at unstarted nil_channel uncalled empty)
      (at unstarted nil_channel (sending nil_channel) empty)
    × (sending nil_channel ≡ sending nil_channel)
    × (selecting ≢ returned)
stop_too_early_example =
    stop_too_early recent (pos 11) (pos 60) (pos 5) (pos 5) true (codes "items") made refl here
      (and_then here starts)
