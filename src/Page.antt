-- ===== src/Page.antt =====
-- galapagos_gin/cache/cache.go: the page cache. A handler is what it does to its writer; the
-- writer that gin hands it is a parameter. Tracing stands in Traced, logging nowhere. The header of a
-- response is cached as it stands at the write, as a store that encodes its values keeps it.
pub mod Url
pub mod Chunks
pub mod Twice
pub mod Rendered
pub mod Site
pub mod Atomic
pub mod Traced
use go_cache.Prelude.{
  ℕ, ◌+◌, ◌-◌, ◌/◌, ◌%◌, Option, none, some, List, [], ◌∷◌, ◌++◌, Bool, true, false, ◌&&◌, ◌||◌,
  Bytes, codes, bytes_eq, length, leb, ltb, ◌==◌, if◌then◌else◌,
}
use go_cache.Prelude.Int.{ℤ, pos}
use go_cache.Outcome.{Outcome, returns, panics}
use go_cache.Error.{Error}
use go_cache.Value.{Value, nil, response, ResponseCache, Header, response_type, Target, pointer}
use go_cache.InMemory.{Got}
use go_cache.Store.{CacheStore, M, ◌>>=◌, pure, throw}
use go_cache.Page.Url.{url_escape}

-- `gin.ResponseWriter`: a write says how many bytes it wrote, and may fail.
pub record ResponseWriter : Type 1 where
  pub Writer : Type 0
  pub write_header : Writer → ℤ → Writer
  pub header : Writer → Header
  pub add_header : Writer → Bytes → Bytes → Writer
  pub set_header : Writer → Bytes → Bytes → Writer
  pub write : Writer → Bytes → (ℕ × Option Error) × Writer
  pub write_string : Writer → Bytes → (ℕ × Option Error) × Writer
  pub status : Writer → ℤ
  pub is_written : Writer → Bool

-- `http.Header.Get` of a name of letters and dashes: the first value under its canonical form.
upper : ℕ → ℕ
upper c = if leb b'a' c && leb c b'z' then c - 32 else c

lower : ℕ → ℕ
lower c = if leb b'A' c && leb c b'Z' then c + 32 else c

unfoldable pub canonical : Bool → Bytes → Bytes
unfolding upper lower
canonical start [] = []
canonical start (c ∷ cs) = (if start then upper c else lower c) ∷ canonical (c == b'-') cs

abbrev pub first_value : List Bytes → Bytes
first_value [] = []
first_value (v ∷ vs) = v

unfoldable pub header_values : Header → Bytes → List Bytes
unfolding bytes_eq
header_values [] name = []
header_values ((k, vs) ∷ h) name = if bytes_eq k name then vs else header_values h name

unfoldable pub header_get : Header → Bytes → Bytes
unfolding canonical header_values
header_get h name = first_value (header_values h (canonical true name))

module _ (s : CacheStore) (gin : ResponseWriter) where
  open s use {World, Pool}
  open gin use {Writer}

  pub record CachedWriter : Type 0 where
    pub writer : Writer
    pub status : ℤ
    pub written : Bool
    pub store : Pool
    pub expire : ℤ
    pub key : Bytes

  unfoldable pub new_cached_writer : Pool → ℤ → Writer → Bytes → CachedWriter
  new_cached_writer store expire writer key = record {
    writer = writer;
    status = pos 0;
    written = false;
    store = store;
    expire = expire;
    key = key;
  }

  unfoldable pub write_header : CachedWriter → ℤ → CachedWriter
  write_header w code = record w {
    status = code;
    written = true;
    writer = gin.write_header w.writer code;
  }

  unfoldable pub status : CachedWriter → ℤ
  status w = gin.status w.writer

  unfoldable pub is_written : CachedWriter → Bool
  is_written w = gin.is_written w.writer

  -- The response that a write caches: the data of this write alone.
  abbrev pub to_cache : CachedWriter → Bytes → Value
  to_cache w chunk =
      response (record { status = w.status; header = gin.header w.writer; body = chunk })

  -- `Write`: the error of the store is dropped.
  abbrev pub cache_chunk :
      CachedWriter → Bytes → ℕ × Option Error → M World (CachedWriter × (ℕ × Option Error))
  cache_chunk w chunk (n, some e) = pure (w, (n, some e))
  cache_chunk w chunk (n, none) = do
    _ ← s.set w.store w.key (to_cache w chunk) w.expire
    pure (w, (n, none))

  unfoldable pub write : CachedWriter → Bytes → M World (CachedWriter × (ℕ × Option Error))
  write w chunk =
      let (ret, inner) = gin.write w.writer chunk in
      cache_chunk (record w { writer = inner }) chunk ret

  -- `WriteString`: with an error of the store nothing counts as written.
  abbrev pub cache_string :
      CachedWriter → Bytes → ℕ × Option Error → M World (CachedWriter × (ℕ × Option Error))
  cache_string w chunk (n, some e) = pure (w, (n, some e))
  cache_string w chunk (n, none) = do
    stored ← s.set w.store w.key (to_cache w chunk) w.expire
    pure (w, elim stored [ none ↦ (n, none) | some e ↦ (0, some e) ])

  unfoldable pub write_string : CachedWriter → Bytes → M World (CachedWriter × (ℕ × Option Error))
  write_string w chunk =
      let (ret, inner) = gin.write_string w.writer chunk in
      cache_string (record w { writer = inner }) chunk ret

  -- What a handler does to its writer. A status that it gives to its context goes to the writer
  -- of the context, which the caching writer stands before.
  pub data Action : Type 0 where
    writes_header sets_status : ℤ → Action
    adds_header sets_header : Bytes → Bytes → Action
    writes : Bytes → Action
    writes_string : Bytes → Action

  unfoldable pub act : CachedWriter → Action → M World CachedWriter
  unfolding write_header write write_string
  act w (writes_header code) = pure (write_header w code)
  act w (sets_status code) = pure (record w { writer = gin.write_header w.writer code })
  act w (sets_header k v) = pure (record w { writer = gin.set_header w.writer k v })
  act w (adds_header k v) = pure (record w { writer = gin.add_header w.writer k v })
  act w (writes chunk) = do r ← write w chunk; pure r.0
  act w (writes_string chunk) = do r ← write_string w chunk; pure r.0

  unfoldable pub handle : CachedWriter → List Action → M World CachedWriter
  unfolding act
  handle w [] = pure w
  handle w (a ∷ rest) = do w' ← act w a; handle w' rest

  -- `for k, vals := range cache.Header { for _, v := range vals { … Add(k, v) } }`
  unfoldable pub add_values : Writer → Bytes → List Bytes → Writer
  add_values w k [] = w
  add_values w k (v ∷ vs) = add_values (gin.add_header w k v) k vs

  unfoldable pub add_headers : Writer → Header → Writer
  unfolding add_values
  add_headers w [] = w
  add_headers w ((k, vs) ∷ h) = add_headers (add_values w k vs) h

  -- A cached page is sent: its status, its headers, its data. An error is only logged.
  unfoldable pub replay : Writer → ResponseCache → Writer
  unfolding add_headers
  replay w r = (gin.write (add_headers (gin.write_header w r.status) r.header) r.body).1

  -- `var cache ResponseCache`, and what the store has written into it.
  abbrev pub read_response : Got → ResponseCache
  read_response g = elim (g.written) [
    | some (response r) ↦ r
    | _ ↦ record { status = pos 0; header = []; body = [] }
  ]

  -- `SiteCache`; `next` is what the handlers after it do to the writer.
  unfoldable pub site_cache :
      (Bytes → Bytes) → Bytes → Pool → (Writer → M World Writer) → Bytes → Writer → M World Writer
  unfolding replay url_escape
  site_cache sha1 prefix store next uri w = do
    g ← s.get store (url_escape sha1 prefix uri) (pointer response_type)
    elim (g.error) [ some e ↦ next w | none ↦ pure (replay w (read_response g)) ]

  -- The handler runs with a caching writer in place of its own.
  abbrev pub handle_cached : Pool → ℤ → List Action → Bytes → Writer → M World Writer
  handle_cached store expire actions key w = do
    c ← handle (new_cached_writer store expire w key) actions
    pure c.writer

  -- `CachePage`: a page in the cache is sent only if it says that it may be.
  abbrev pub okay_to_cache : ResponseCache → Bool
  okay_to_cache r = ltb 0 (length (header_get r.header (codes "x-okay-to-cache")))

  unfoldable pub cache_page :
      (Bytes → Bytes) → Bytes → Pool → ℤ → List Action → Bytes → Writer → M World Writer
  unfolding replay url_escape handle new_cached_writer header_get
  cache_page sha1 prefix store expire actions uri w = do
    let key = url_escape sha1 prefix uri
    g ← s.get store key (pointer response_type)
    elim (g.error) [
      | some e ↦ handle_cached store expire actions key w
      | none ↦
          if okay_to_cache (read_response g)
          then pure (replay w (read_response g))
          else handle_cached store expire actions key w
    ]
