-- ===== src/Page/Chunks.antt =====
-- What the page cache holds after a handler that writes in several chunks
-- (galapagos_gin/cache/cache.go).
use go_cache.Prelude.{ℕ, ◌≡◌, refl, none, List, [], ◌∷◌, ◌++◌, map, Bool, Bytes}
use go_cache.Prelude.Int.{ℤ}
use go_cache.Outcome.{returns}
use go_cache.Value.{response, ResponseCache, response_type, pointer}
use go_cache.InMemory.{got}
use go_cache.Store.{CacheStore}
use go_cache.Page.{ResponseWriter, CachedWriter, writes, act, write, handle}

module _ (s : CacheStore) (gin : ResponseWriter) where
  -- A store that was handed a response and asked for it gives it back.
  pub record KeptResponse (p : s.Pool) (key : Bytes) (exp : ℤ) (w : s.World) (r : ResponseCache)
      : Type 0 where
    pub after_set : s.World
    pub after_get : s.World
    pub is_set : s.set p key (response r) exp w ≡ (returns none, after_set)
    pub is_got :
        s.get p key (pointer response_type) after_set ≡ (returns (got (response r)), after_get)

  -- The cache holds a response of the given status, with the given data.
  pub record Caches (p : s.Pool) (key : Bytes) (code : ℤ) (chunk : Bytes) (w : s.World)
      : Type 0 where
    pub page : ResponseCache
    pub same_status : page.status ≡ code
    pub same_body : page.body ≡ chunk
    pub after_get : s.World
    pub is_got : s.get p key (pointer response_type) w ≡ (returns (got (response page)), after_get)

  abbrev pub WritesAll : Type 0
  WritesAll = (x : gin.Writer) (chunk : Bytes) → (n : ℕ) × ((gin.write x chunk).0 ≡ (n, none))

  module _ (p : s.Pool) (key : Bytes) (exp : ℤ) (done : Bool)
      (keeps : (w : s.World) (r : ResponseCache) → KeptResponse p key exp w r)
      (all : WritesAll) where
    abbrev at_key : gin.Writer → ℤ → CachedWriter s gin
    at_key x code = record {
      writer = x;
      status = code;
      written = done;
      store = p;
      expire = exp;
      key = key;
    }

    write_chunk :
        (x : gin.Writer) (code : ℤ) (chunk : Bytes) (w : s.World)
        → (w1 : s.World) × (act s gin (at_key x code) (writes chunk) w
            ≡ (returns (at_key (gin.write x chunk).1 code), w1))
          × Caches p key code chunk w1
    unfolding act write
    write_chunk x code chunk w =
        let r : ResponseCache = record {
          status = code;
          header = gin.header (gin.write x chunk).1;
          body = chunk;
        } in
        let kept = keeps w r in
        let wrote = (all x chunk).1 in
        (
          kept.after_set,
          rw (wrote, write) (rw (kept.is_set, write) refl),
          record {
            page = r;
            same_status = refl;
            same_body = refl;
            after_get = kept.after_get;
            is_got = kept.is_got;
          },
        )

    -- A handler that writes a page in chunks to a writer that takes them all leaves a response in
    -- the cache, under the status of its writer, that holds the last chunk and nothing else.
    pub handle-last_chunk :
        (code : ℤ) (chunks : List Bytes) (last : Bytes) (x : gin.Writer) (w : s.World)
        → (y : gin.Writer) × (w1 : s.World) × (handle s gin
              (at_key x code)
              (map writes (chunks ++ last ∷ []))
              w
            ≡ (returns (at_key y code), w1))
          × Caches p key code last w1
    unfolding handle
    handle-last_chunk code [] last x w =
        let (w1, acted, caches) = write_chunk x code last w in
        ((gin.write x last).1, w1, rw acted refl, caches)
    handle-last_chunk code (c ∷ cs) last x w =
        let (w1, acted, _) = write_chunk x code c w in
        let (y, w2, handled, caches) = handle-last_chunk code cs last (gin.write x c).1 w1 in
        (y, w2, rw acted handled, caches)
