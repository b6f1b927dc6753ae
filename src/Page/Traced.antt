-- ===== src/Page/Traced.antt =====
-- galapagos_gin/cache/cache.go: the spans of `CachePage`, and the middleware `Cache`. The context of
-- a request (gin) and the tracer (opentracing) are parameters; the calls that start and finish a
-- span are recorded, the last first.
pub mod Finished
use go_cache.Prelude.{ℕ, ◌≡◌, Option, none, some, List, [], ◌∷◌, Bytes, codes, length}
use go_cache.Prelude.Int.{ℤ}
use go_cache.Outcome.{Outcome, returns, panics}
use go_cache.Value.{Header}
use go_cache.Store.{CacheStore}
use go_cache.Page.{ResponseWriter, Action, cache_page}

-- What a span is started with, beside the tag that it is one of a server.
pub record Start (SpanContext : Type 0) : Type 0 where
  pub operation : Bytes
  pub method : Bytes
  pub path : Bytes
  pub goroutines : ℕ
  pub child_of : Option SpanContext

-- A span is named by its number.
pub data Event (SpanContext : Type 0) : Type 0 where
  started : ℕ → Start SpanContext → Event SpanContext
  finished : ℕ → Event SpanContext

-- `opentracing`: the context of a span, and the one that the headers of a request carry, if they
-- carry one.
pub record Tracer : Type 1 where
  pub SpanContext : Type 0
  pub context : ℕ → SpanContext
  pub extract : Header → Option SpanContext

-- What a context holds under a key.
pub data Held (Pool : Type 0) : Type 0 where
  span : ℕ → Held Pool
  store : Pool → Held Pool
  another : Held Pool

-- `gin.Context`: what is set under a key is got under it.
pub record Contexts (Pool : Type 0) : Type 1 where
  pub Context : Type 0
  pub get : Context → Bytes → Option (Held Pool)
  pub set : Context → Bytes → Held Pool → Context
  pub get-set : (c : Context) (k : Bytes) (v : Held Pool) → get (set c k v) k ≡ some v

pub record Request : Type 0 where
  pub method : Bytes
  pub path : Bytes
  pub uri : Bytes
  pub header : Header

abbrev pub tracing_context : Bytes
tracing_context = codes "tracing-context"

-- The middleware `Cache`, up to the call of the next handler.
abbrev pub cache : {Pool : Type 0} (gin : Contexts Pool) → Pool → gin.Context → gin.Context
cache gin p c = gin.set c (codes "gincontrib.cache") (store p)

module _ (tracer : Tracer) where
  open tracer use {SpanContext}

  abbrev pub Trace : Type 0
  Trace = List (Event SpanContext)

  -- `startSpanWithParent`, of a parent that may be nil: the number of the span, and the trace. A
  -- number is new if it is that of the events before.
  abbrev pub start_span_with_parent :
      Option SpanContext → Bytes → Bytes → Bytes → ℕ → Trace → ℕ × Trace
  start_span_with_parent parent operation method path goroutines t = (
    length t,
    started (length t) (record {
      operation = operation;
      method = method;
      path = path;
      goroutines = goroutines;
      child_of = parent;
    })
        ∷ t,
  )

  -- `startSpanWithHeader`; the error of `Extract` is dropped.
  abbrev pub start_span_with_header : Header → Bytes → Bytes → Bytes → ℕ → Trace → ℕ × Trace
  start_span_with_header header = start_span_with_parent (tracer.extract header)

  module _ (s : CacheStore) (contexts : Contexts s.Pool) where
    -- The span of a request: a child of the one in the context, which is asserted to be a span.
    abbrev pub page_span : Option (Held s.Pool) → Request → ℕ → Trace → Outcome (ℕ × Trace)
    page_span (some (span i)) r goroutines t = returns (
        start_span_with_parent (some (tracer.context i)) (codes "api-request-cache-page") r.method
          r.path goroutines t)
    page_span (some _) r goroutines t = panics
    page_span none r goroutines t = returns (
        start_span_with_header r.header (codes "api-request-cache-page") r.method r.path goroutines
          t)

    -- What a traced request leaves.
    pub record Traced : Type 0 where
      pub world : s.World
      pub context : contexts.Context
      pub trace : Trace

    module _ (gin : ResponseWriter) (sha1 : Bytes → Bytes) (prefix : Bytes) (p : s.Pool)
        (expire : ℤ) where
      -- Under a span that has been started: it is set, and finished whether the page returns or
      -- panics.
      abbrev pub in_span :
          List (Action s gin)
          → Request
          → gin.Writer
          → Traced
          → ℕ
          → Trace
          → Outcome gin.Writer × Traced
      in_span actions r w t i trace =
          let (o, world) = cache_page s gin sha1 prefix p expire actions r.uri w t.world in
          (
            o,
            record {
              world = world;
              context = contexts.set t.context tracing_context (span i);
              trace = finished i ∷ trace;
            },
          )

      -- `CachePage`, with its span.
      unfoldable pub traced_cache_page :
          List (Action s gin) → Request → ℕ → gin.Writer → Traced → Outcome gin.Writer × Traced
      traced_cache_page actions r goroutines w t =
          elim (page_span (contexts.get t.context tracing_context) r goroutines t.trace) [
            | returns (i, trace) ↦ in_span actions r w t i trace
            | panics ↦ (panics, t)
          ]
