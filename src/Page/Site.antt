-- ===== src/Page/Site.antt =====
-- `SiteCache` and `CachePage` over one store (galapagos_gin/cache/cache.go).
use go_cache.Error.{Error}
