-- ===== src/Example/Routes.antt =====
-- example/example.go, `main`: the routes of the service. What `Context.String` does to the writer of
-- its context, and the entry that `getNewEntry` gives, are parameters. The middleware of the router
-- and its port are not modelled.
pub mod Again
use go_cache.Prelude.{Option, none, some, List, [], ◌∷◌, Bytes, codes, bytes_eq, if◌then◌else◌}
use go_cache.Prelude.Int.{ℤ, pos}
use go_cache.Clock.{Instant}
use go_cache.Value.{Value}
use go_cache.Lru.{Arc}
use go_cache.Store.{CacheStore, M, ◌>>=◌, pure}
use go_cache.Generic.{Codec, GenericCache}
use go_cache.Generic.AsStore.{as_store}
use go_cache.Page.{
  ResponseWriter, Action, writes_header, sets_status, sets_header, adds_header, writes,
  writes_string, cache_page,
}
use go_cache.Example.{
  Reply, cached_encrypted_entry, cached_in_memory_not_encrypted_entry,
  cached_in_memory_lru_with_expiry,
}
use go_cache.Example.Setup.{Caches}

pub data Route : Type 0 where
  hello cached_page encrypted_entry not_encrypted_entry lru_with_expiry : Route

abbrev routes : List (Bytes × Route)
routes =
    (codes "/hello", hello)
    ∷ (codes "/cached-page", cached_page)
    ∷ (codes "/cached-encrypted-entry", encrypted_entry)
    ∷ (codes "/cached-in-memory-not-encrypted-entry", not_encrypted_entry)
    ∷ (codes "/cached-in-memory-lru-with-expiry", lru_with_expiry)
    ∷ []

abbrev find_route : List (Bytes × Route) → Bytes → Option Route
find_route [] path = none
find_route ((p, r) ∷ rest) path = if bytes_eq p path then some r else find_route rest path

unfoldable pub route_of : Bytes → Option Route
unfolding bytes_eq
route_of = find_route routes

abbrev pub page_cache_prefix : Bytes
page_cache_prefix = codes "gincontrib.page.cache"

-- `5*time.Minute`.
abbrev pub five_minutes : ℤ
five_minutes = pos 300000000000

pub record Request : Type 0 where
  pub path : Bytes
  pub uri : Bytes

module _ (k : Codec) (s : CacheStore) (gin : ResponseWriter) (clock : s.World → Instant) where
  open s use {World, Pool}
  open gin use {Writer}

  -- A GenericCache as the store of pages.
  abbrev pub page_store : CacheStore
  page_store = as_store k s clock

  -- What `c.String` does to its writer.
  abbrev pub Renders : Type 0
  Renders = ℤ → Bytes → List (Action page_store gin)

  -- A handler with the writer of gin.
  unfoldable pub act_plain : Writer → List (Action page_store gin) → Writer
  act_plain x [] = x
  act_plain x (writes_header code ∷ rest) = act_plain (gin.write_header x code) rest
  act_plain x (sets_status code ∷ rest) = act_plain (gin.write_header x code) rest
  act_plain x (adds_header f v ∷ rest) = act_plain (gin.add_header x f v) rest
  act_plain x (sets_header f v ∷ rest) = act_plain (gin.set_header x f v) rest
  act_plain x (writes chunk ∷ rest) = act_plain (gin.write x chunk).1 rest
  act_plain x (writes_string chunk ∷ rest) = act_plain (gin.write_string x chunk).1 rest

  abbrev pub hello_page : Renders → List (Action page_store gin)
  hello_page string = string (pos 200) (codes "Hello world!\n")

  abbrev pub cacheable_page : Renders → List (Action page_store gin)
  cacheable_page string =
      sets_header (codes "x-okay-to-cache") (codes "true")
      ∷ string (pos 200) (codes "Cached Hello world!\n")

  -- A page is written; an entry is sent as JSON.
  pub data Answer : Type 0 where
    page : Writer → Answer
    json : Reply → Answer

  abbrev pub as_page : M World Writer → M World Answer
  as_page m = do x ← m; pure (page x)

  abbrev pub as_json : M World Reply → M World Answer
  as_json m = do r ← m; pure (json r)

  module _ (arc : Arc) (sha1 : Bytes → Bytes) (string : Renders) (new_entry : Value)
      (caches : Caches arc s) where
    unfoldable pub handle_route : Route → Bytes → Writer → M World Answer
    unfolding act_plain
    handle_route hello uri x w = pure (page (act_plain x (hello_page string))) w
    handle_route cached_page uri x w =
        as_page
          (cache_page page_store gin sha1 page_cache_prefix caches.generic_redis five_minutes
            (cacheable_page string) uri x)
          w
    handle_route encrypted_entry uri x w =
        as_json (cached_encrypted_entry k s new_entry caches.generic_redis (clock w)) w
    handle_route not_encrypted_entry uri x w =
        as_json
          (cached_in_memory_not_encrypted_entry k s new_entry caches.generic_in_memory (clock w)) w
    handle_route lru_with_expiry uri x w =
        as_json (cached_in_memory_lru_with_expiry k s new_entry caches.lru_expiry (clock w)) w

    -- A request; none where no route fits.
    unfoldable pub serve : Request → Writer → M World (Option Answer)
    unfolding handle_route
    serve r x = elim (route_of r.path) [
      | none ↦ pure none
      | some route ↦ do a ← handle_route route r.uri x; pure (some a)
    ]
