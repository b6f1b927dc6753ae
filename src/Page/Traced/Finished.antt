-- ===== src/Page/Traced/Finished.antt =====
-- The spans of requests for pages (galapagos_gin/cache/cache.go, `CachePage`).
use go_cache.Prelude.{
  ℕ, zero, suc, ◌+◌, ◌≡◌, refl, sym, subst, ap, ◌⊎◌, inl, inr, none, some, List, [], ◌∷◌, Bytes,
  length, arith,
}
use go_cache.Prelude.Int.{ℤ}
use go_cache.Outcome.{Outcome}
use go_cache.Store.{CacheStore}
use go_cache.Page.{ResponseWriter, Action, cache_page}
use go_cache.Page.Traced.{
  Tracer, Contexts, Request, Start, started, finished, span, tracing_context, Trace, Event,
  traced_cache_page,
}

-- A trace of so many spans, each of which is finished right after it was started, under a number
-- that no span before it has.
pub data Closed {C : Type 0} : ℕ → List (Event C) → Type 0 where
  nothing : Closed zero []
  one_more :
      {n : ℕ} {t : List (Event C)} (start : Start C)
      → Closed n t
      → Closed (suc n) (finished (length t) ∷ started (length t) start ∷ t)

zero_plus : (n : ℕ) → n ≡ 0 + n
zero_plus n = omega arith

suc_plus : (m n : ℕ) → suc (m + n) ≡ suc m + n
suc_plus m n = omega arith

module _ (tracer : Tracer) (s : CacheStore) (contexts : Contexts s.Pool) where
  -- Under the key of the span the context holds a span, or nothing.
  abbrev pub IsTraceable : contexts.Context → Type 0
  IsTraceable c =
      (contexts.get c tracing_context ≡ none)
      ⊎ ((i : ℕ) × (contexts.get c tracing_context ≡ some (span i)))

  -- A request, with its handler, its writer, its context and the number of goroutines.
  pub record Page (gin : ResponseWriter) : Type 0 where
    pub actions : List (Action s gin)
    pub request : Request
    pub goroutines : ℕ
    pub writer : gin.Writer
    pub context : contexts.Context
    pub traceable : IsTraceable context

  module _ (gin : ResponseWriter) (sha1 : Bytes → Bytes) (prefix : Bytes) (p : s.Pool)
      (expire : ℤ) where
    -- The requests one after the other, the last first: their ends, and what they leave.
    unfoldable pub serve :
        List (Page gin)
        → s.World × Trace tracer
        → List (Outcome gin.Writer) × s.World × Trace tracer
    unfolding traced_cache_page
    serve [] (w, t) = ([], w, t)
    serve (r ∷ earlier) (w, t) =
        let (ends, w1, t1) = serve earlier (w, t) in
        let (o, left) =
          traced_cache_page tracer s contexts gin sha1 prefix p expire r.actions r.request
            r.goroutines r.writer (record { world = w1; context = r.context; trace = t1 }) in
        (o ∷ ends, left.world, left.trace)

    unfoldable pub serve_untraced : List (Page gin) → s.World → List (Outcome gin.Writer) × s.World
    unfolding cache_page
    serve_untraced [] w = ([], w)
    serve_untraced (r ∷ earlier) w =
        let (ends, w1) = serve_untraced earlier w in
        let (o, w2) = cache_page s gin sha1 prefix p expire r.actions r.request.uri r.writer w1 in
        (o ∷ ends, w2)

    -- One request more.
    abbrev untraced :
        Page gin → List (Outcome gin.Writer) × s.World → List (Outcome gin.Writer) × s.World
    untraced r (ends, w) =
        let (o, w') = cache_page s gin sha1 prefix p expire r.actions r.request.uri r.writer w in
        (o ∷ ends, w')

    traced_lem :
        (r : Page gin) (w : s.World) (t : Trace tracer)
        → let plain = cache_page s gin sha1 prefix p expire r.actions r.request.uri r.writer w in
          let (o, left) =
            traced_cache_page tracer s contexts gin sha1 prefix p expire r.actions r.request
              r.goroutines r.writer
              (record { world = w; context = r.context; trace = t }) in
          (o ≡ plain.0)
          × (left.world ≡ plain.1)
          × (start : Start tracer.SpanContext) × (left.trace
              ≡ finished (length t) ∷ started (length t) start ∷ t)
    unfolding traced_cache_page
    traced_lem r w t = elim r.traceable [
      | inl absent ↦ rw (absent, traced_cache_page) (refl, refl, _, refl)
      | inr (i, held) ↦ rw (held, traced_cache_page) (refl, refl, _, refl)
    ]

    -- Requests one after the other, each in a context that holds a span or none, end as they do
    -- without spans, returns and panics alike, and leave the store the same; each has started one
    -- span more, of a new number, and finished it.
    pub serve-Closed :
        (rs : List (Page gin)) (w : s.World) (t : Trace tracer) (n : ℕ)
        → Closed n t
        → let (ends, w', t') = serve rs (w, t) in
          ((ends, w') ≡ serve_untraced rs w) × Closed (length rs + n) t'
    unfolding serve serve_untraced
    serve-Closed [] w t n h = (refl, subst (λ m. Closed m t) (zero_plus n) h)
    serve-Closed (r ∷ earlier) w t n h =
        let (ends, w1, t1) = serve earlier (w, t) in
        let (same, closed) = serve-Closed earlier w t n h in
        let (outcome, world, start, trace) = traced_lem r w1 t1 in
        let grown : Closed (suc (length earlier + n))
            (finished (length t1) ∷ started (length t1) start ∷ t1) =
          one_more start closed in
        (
          rw outcome (rw world (ap (untraced r) same)),
          subst (λ m. Closed m (serve (r ∷ earlier) (w, t)).2) (suc_plus (length earlier) n)
              (subst (Closed (suc (length earlier + n))) (sym trace) grown),
        )
