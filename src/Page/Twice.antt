-- ===== src/Page/Twice.antt =====
-- Two requests for the same page (galapagos_gin/cache/cache.go, `CachePage`).
use go_cache.Prelude.{ℕ, ◌≡◌, refl, none, List, [], ◌∷◌, Bool, true, false, Bytes, if◌then◌else◌}
use go_cache.Prelude.Int.{ℤ}
use go_cache.Error.{Error}
use go_cache.Outcome.{returns}
use go_cache.Value.{ResponseCache, response_type, pointer}
use go_cache.InMemory.{failed}
use go_cache.Store.{CacheStore, M}
use go_cache.Page.{
  ResponseWriter, Action, writes, writes_header, new_cached_writer, act, write, write_header,
  handle, handle_cached, cache_page, replay, okay_to_cache,
}
use go_cache.Page.Url.{url_escape}
use go_cache.Page.Chunks.{KeptResponse}

if-apply :
    {W A : Type 0} (b : Bool) (m n : M W A) (w : W)
    → (if b then m else n) w ≡ (if b then m w else n w)
if-apply true m n w = refl
if-apply false m n w = refl

module _ (s : CacheStore) (gin : ResponseWriter) where
  -- What a handler that sets a status and writes one chunk has cached.
  abbrev pub cached : gin.Writer → ℤ → Bytes → ResponseCache
  cached x code chunk = record {
    status = code;
    header = gin.header (gin.write (gin.write_header x code) chunk).1;
    body = chunk;
  }

  module _ (sha1 : Bytes → Bytes) (prefix uri : Bytes) (p : s.Pool) (exp : ℤ) (x : gin.Writer) where
    abbrev key : Bytes
    key = url_escape sha1 prefix uri

    -- The first request misses, and its handler has a page cached, which the second finds.
    pub cache_page-kept :
        (page : ResponseCache) (actions : List (Action s gin)) (y : gin.Writer) (e : Error)
        (w w1 : s.World) (z : gin.Writer) (other : List (Action s gin))
        → s.get p key (pointer response_type) w ≡ (returns (failed e), w1)
        → (k : KeptResponse s gin p key exp w1 page)
        → handle_cached s gin p exp actions key x w1 ≡ (returns y, k.after_set)
        → (cache_page s gin sha1 prefix p exp actions uri x w ≡ (returns y, k.after_set))
          × (cache_page s gin sha1 prefix p exp other uri z k.after_set ≡ (
              if okay_to_cache s gin page
              then (returns (replay s gin z page), k.after_get)
              else handle_cached s gin p exp other key z k.after_get))
    unfolding cache_page
    cache_page-kept page actions y e w w1 z other missed k handled = (
      rw (missed, cache_page) handled,
      rw (k.is_got, cache_page) (if-apply (okay_to_cache s gin page) _ _ k.after_get),
    )

    handle_one :
        (code : ℤ) (chunk : Bytes) (n : ℕ) (w : s.World)
        → (gin.write (gin.write_header x code) chunk).0 ≡ (n, none)
        → (k : KeptResponse s gin p key exp w (cached x code chunk))
        → handle_cached s gin p exp (writes_header code ∷ writes chunk ∷ []) key x w
          ≡ (returns (gin.write (gin.write_header x code) chunk).1, k.after_set)
    unfolding handle act write write_header new_cached_writer
    handle_one code chunk n w wrote k = rw (wrote, write) (rw (k.is_set, write) refl)

    -- The first request for a page misses, and its handler sets a status and writes one chunk, all
    -- of it. The second finds the response: if its header says that it may be cached, it is sent
    -- as it was, and the handler does not run; if not, the handler runs.
    pub cache_page-twice :
        (code : ℤ) (chunk : Bytes) (n : ℕ) (e : Error) (w w1 : s.World) (z : gin.Writer)
        (other : List (Action s gin))
        → (gin.write (gin.write_header x code) chunk).0 ≡ (n, none)
        → s.get p key (pointer response_type) w ≡ (returns (failed e), w1)
        → (k : KeptResponse s gin p key exp w1 (cached x code chunk))
        → (cache_page s gin sha1 prefix p exp (writes_header code ∷ writes chunk ∷ []) uri x w
            ≡ (returns (gin.write (gin.write_header x code) chunk).1, k.after_set))
          × (cache_page s gin sha1 prefix p exp other uri z k.after_set ≡ (
              if okay_to_cache s gin (cached x code chunk)
              then (returns (replay s gin z (cached x code chunk)), k.after_get)
              else handle_cached s gin p exp other key z k.after_get))
    cache_page-twice code chunk n e w w1 z other wrote missed k =
        cache_page-kept (cached x code chunk) (writes_header code ∷ writes chunk ∷ [])
          (gin.write (gin.write_header x code) chunk).1 e w w1 z other missed k
          (handle_one code chunk n w1 wrote k)
