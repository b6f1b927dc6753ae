-- ===== src/Example/Routes/Again.antt =====
-- Two requests for the cached page of the service (example/example.go).
use go_cache.Prelude.{List, ◌∷◌, true, Bytes, codes}
use go_cache.Clock.{Instant}
use go_cache.Error.{Error}
use go_cache.Value.{Value, ResponseCache}
use go_cache.Lru.{Arc}
use go_cache.Store.{CacheStore}
use go_cache.Generic.{Codec}
use go_cache.Generic.Reads
use go_cache.Page.{ResponseWriter, Action, sets_header}
use go_cache.Page.Rendered.{without_status}
use go_cache.Example.Setup.{Caches}
use go_cache.Example.Routes
use go_cache.Example.Routes.{Request, Renders, page_store, cached_page}

abbrev pub asking_page : Bytes → Request
asking_page uri = record { path = codes "/cached-page"; uri = uri }

abbrev pub body : Bytes
body = codes "Cached Hello world!\n"

module _ (k : Codec) (s : CacheStore) (gin : ResponseWriter) (clock : s.World → Instant) (arc : Arc)
    (sha1 : Bytes → Bytes) (string : Renders k s gin clock) (new_entry : Value)
    (caches : Caches arc s) where
  open s use {World, Pool}

  abbrev pub page_head :
      List (Action (page_store k s gin clock) gin) → List (Action (page_store k s gin clock) gin)
  page_head head = sets_header (codes "x-okay-to-cache") (codes "true") ∷ head

  abbrev pub kept_page : gin.Writer → List (Action (page_store k s gin clock) gin) → ResponseCache
  kept_page x head = without_status (page_store k s gin clock) gin true x (page_head head) body
