-- ===== src/Store/Pages.antt =====
-- The page cache (galapagos_gin/cache/cache.go) over a `GenericCache` (generic.go) over the
-- in-memory store (inmemory.go), as the repository puts them together.
use go_cache.Prelude.Int.{ℤ}
use go_cache.Clock.{Reads}
use go_cache.Outcome.{Outcome}
use go_cache.Lru.{Arc}
use go_cache.Error.{Error}
use go_cache.InMemory
use go_cache.Store.{CacheStore}
use go_cache.Store.Local.{local}
use go_cache.Generic.{Codec}
use go_cache.Generic.Reads
use go_cache.Generic.AsStore.{as_store}
use go_cache.Page.{ResponseWriter}

module _ (arc : Arc) (d : ℤ) (gin : ResponseWriter) where
  abbrev pub pages : Codec → CacheStore
  pages k = as_store k (local arc d) (λ w. w.now)
