-- ===== src/Tests/Page.antt =====
-- The page cache, tried over a store of one value and a writer that holds what it is sent.
use go_cache.Prelude.{
  inl, ◌+◌, ℕ, List, ◌≡◌, refl, Option, none, some, [], ◌∷◌, ◌++◌, map, true, false, Bytes, codes,
  take, length, arith,
}
use go_cache.Prelude.Int.{pos}
use go_cache.Outcome.{Outcome, returns}
use go_cache.Value.{Value}
use go_cache.Page.Traced.{Contexts, Held, Tracer}
use go_cache.Page.Traced.Finished.{Closed, nothing, Page, serve, serve_untraced, serve-Closed}
use go_cache.Page.{ResponseWriter, CachedWriter, writes, handle}
use go_cache.Page.Url.{query_escape, is_unreserved, url_escape-injective}
use go_cache.Tests.Data.{one}
use go_cache.Page.Atomic.{schedule, all_waiting, finished}
use go_cache.Page.Atomic.Serial.{AreOnce, EndsIn, after}
use go_cache.Page.Atomic.OneByOne.{
  PageRequest, cache_page_atomic, page_of, cache_page_atomic-serial,
}
use go_cache.Page.Chunks.{Caches, handle-last_chunk}

-- A writer that holds what it was sent.
abbrev pub gin : ResponseWriter
gin = record {
  Writer = Bytes;
  write_header = λ w code. w;
  header = λ w. (codes "X-Okay-To-Cache", codes "yes" ∷ []) ∷ [];
  add_header = λ w k v. w;
  set_header = λ w k v. w;
  write = λ w chunk. ((length chunk, none), w ++ chunk);
  write_string = λ w chunk. ((length chunk, none), w ++ chunk);
  status = λ w. pos 200;
  is_written = λ w. false;
}

abbrev at_page : Bytes → CachedWriter one gin
at_page x = record {
  writer = x;
  status = pos 200;
  written = true;
  store = tt;
  expire = pos 60;
  key = codes "page";
}

handle-last_chunk_example :
    (y : Bytes) × (w1 : Option Value) × (handle one gin
        (at_page [])
        (map writes ((codes "one" ∷ []) ++ codes "two" ∷ []))
        none
      ≡ (returns (at_page y), w1))
    × Caches one gin tt (codes "page") (pos 200) (codes "two") w1
handle-last_chunk_example =
    handle-last_chunk one gin tt (codes "page") (pos 60) true
      (λ w r. record { after_set = _; after_get = _; is_set = refl; is_got = refl })
      (λ x chunk. (length chunk, refl)) (pos 200) (codes "one" ∷ []) (codes "two") [] none

url_escape-injective_example : take 6 (codes "/items?a") ≡ take 6 (codes "/items?b")
unfolding query_escape is_unreserved
url_escape-injective_example =
    url_escape-injective (λ u. u) (codes "p") (take 6 (codes "/items?a"))
      (take 6 (codes "/items?b")) (omega arith) (omega arith) (omega arith) (omega arith) refl

-- Two requests for one page: the second waits while the first is inside.
abbrev requests : ℕ → PageRequest one gin
requests i = record { actions = writes (codes "page") ∷ []; uri = codes "/"; writer = [] }

cache_page_atomic-serial_example :
    let pages = cache_page_atomic one gin (λ u. u) (codes "p") tt (pos 60) requests in
    let page = page_of one gin (λ u. u) (codes "p") tt (pos 60) requests in
    let shared = schedule pages (1 ∷ 0 ∷ 0 ∷ 1 ∷ 0 ∷ 0 ∷ []) (all_waiting pages none) in
    (order : List ℕ) × AreOnce order
    × ((i : ℕ) (o : Outcome Bytes) → shared.requests i ≡ finished o → EndsIn page none i o order)
    × (shared.is_locked ≡ false → shared.world ≡ after page none order)
cache_page_atomic-serial_example =
    cache_page_atomic-serial one gin (λ u. u) (codes "p") tt (pos 60) requests none
      (1 ∷ 0 ∷ 0 ∷ 1 ∷ 0 ∷ 0 ∷ [])

-- A writer whose header does not say that the page may be cached.
abbrev silent : ResponseWriter
silent = record gin { header = λ w. [] }

-- Contexts that hold at most one thing, under any key, and a tracer whose headers carry no span.
abbrev one_thing : Contexts (Unit {0})
one_thing = record {
  Context = Option (Held (Unit {0}));
  get = λ c k. c;
  set = λ c k v. some v;
  get-set = λ c k v. refl;
}

abbrev tracer : Tracer
tracer = record { SpanContext = ℕ; context = λ i. i; extract = λ h. none }

abbrev traced_page : Page tracer one one_thing gin
traced_page = record {
  actions = writes (codes "page") ∷ [];
  request = record { method = codes "GET"; path = codes "/"; uri = codes "/"; header = [] };
  goroutines = 5;
  writer = [];
  context = none;
  traceable = inl refl;
}

serve-Closed_example :
    let pages = traced_page ∷ traced_page ∷ [] in
    let (ends, w, t) =
      serve tracer one one_thing gin (λ u. u) (codes "p") tt (pos 60) pages (none, []) in
    ((ends, w)
      ≡ serve_untraced tracer one one_thing gin (λ u. u) (codes "p") tt (pos 60) pages none)
    × Closed (length pages + 0) t
serve-Closed_example =
    serve-Closed tracer one one_thing gin (λ u. u) (codes "p") tt (pos 60)
      (traced_page ∷ traced_page ∷ []) none [] 0 nothing
