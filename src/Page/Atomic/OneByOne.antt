-- ===== src/Page/Atomic/OneByOne.antt =====
-- Requests for pages under the mutex of `CachePageAtomic` (galapagos_gin/cache/cache.go).
use go_cache.Prelude.{ℕ, ◌≡◌, List, false, Bytes}
use go_cache.Prelude.Int.{ℤ}
use go_cache.Outcome.{Outcome}
use go_cache.Store.{CacheStore}
use go_cache.Page.{ResponseWriter, Action, cache_page}
use go_cache.Page.Atomic.{Code, schedule, all_waiting, finished}
use go_cache.Page.Atomic.Pages.{cache_page_code, cache_page_alone}
use go_cache.Page.Atomic.Serial.{AreOnce, EndsIn, after, schedule_serial}

-- A request: what its handler does to its writer, its URI, and the writer.
pub record PageRequest (s : CacheStore) (gin : ResponseWriter) : Type 0 where
  pub actions : List (Action s gin)
  pub uri : Bytes
  pub writer : gin.Writer

module _ (s : CacheStore) (gin : ResponseWriter) (sha1 : Bytes → Bytes) (prefix : Bytes)
    (store : s.Pool) (expire : ℤ) (requests : ℕ → PageRequest s gin) where
  -- What each request runs under the mutex.
  abbrev pub cache_page_atomic : ℕ → Code s.World gin.Writer
  cache_page_atomic i =
      cache_page_code s gin sha1 prefix store expire (requests i).actions (requests i).uri
        (requests i).writer

  -- `cache_page` of a request, as one step.
  abbrev pub page_of : ℕ → s.World → Outcome gin.Writer × s.World
  page_of i =
      cache_page s gin sha1 prefix store expire (requests i).actions (requests i).uri
        (requests i).writer

  -- Requests in goroutines of their own, scheduled in any order, call by call of the store, under
  -- the mutex: there is an order of requests, in which each stands once, such that a request that
  -- has finished ended as its `cache_page` does in that order, and the store is, whenever the mutex
  -- is free, what the order leaves.
  pub cache_page_atomic-serial :
      (w : s.World) (is : List ℕ)
      → let shared = schedule cache_page_atomic is (all_waiting cache_page_atomic w) in
        (order : List ℕ) × AreOnce order
        × ((i : ℕ) (o : Outcome gin.Writer)
            → shared.requests i ≡ finished o
            → EndsIn page_of w i o order)
        × (shared.is_locked ≡ false → shared.world ≡ after page_of w order)
  cache_page_atomic-serial w is =
      schedule_serial cache_page_atomic page_of
        (λ i.
          cache_page_alone s gin sha1 prefix store expire (requests i).actions (requests i).uri
            (requests i).writer)
        w is
