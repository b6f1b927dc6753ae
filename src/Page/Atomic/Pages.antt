-- ===== src/Page/Atomic/Pages.antt =====
-- `CachePage` as code that calls the store one call at a time, and `CachePageAtomic` over it
-- (galapagos_gin/cache/cache.go).
use go_cache.Prelude.{
  ℕ, ◌≡◌, refl, ap, ◌∙◌, Option, none, some, List, [], ◌∷◌, Bool, true, false, Bytes, if◌then◌else◌,
}
use go_cache.Prelude.Int.{ℤ}
use go_cache.Outcome.{Outcome, returns, panics}
use go_cache.Error.{Error}
use go_cache.Value.{response_type, pointer}
use go_cache.Store.{CacheStore, M, after, pure}
use go_cache.InMemory.{Got}
use go_cache.Page.{
  ResponseWriter, CachedWriter, Action, writes_header, sets_status, sets_header, adds_header,
  writes, writes_string, new_cached_writer, act, write, write_string, write_header, to_cache,
  cache_chunk, cache_string, handle, handle_cached, cache_page, replay, okay_to_cache,
  read_response,
}
use go_cache.Page.Url.{url_escape}
use go_cache.Page.Atomic.{Code, ends, fails, acts, run_alone}

abbrev of_outcome : {W A : Type 0} → Outcome A → Code W A
of_outcome (returns a) = ends a
of_outcome panics = fails

infixl 5 ◌>>=◌
abbrev pub ◌>>=◌ : {W A B : Type 0} → Code W A → (A → Code W B) → Code W B
ends a >>= f = f a
fails >>= f = fails
acts change next >>= f = acts change (λ w. next w >>= f)

-- One call of the store is one action.
abbrev pub call : {W A : Type 0} → M W A → Code W A
call m = acts (λ w. (m w).1) (λ w. of_outcome (m w).0)

module _ {W A : Type 0} where
  run_alone-call : (m : M W A) (w : W) → run_alone (call m) w ≡ m w
  unfolding run_alone
  run_alone-call m w = by_outcome (m w).0
    where
      by_outcome : (o : Outcome A) → run_alone (of_outcome {W = W} o) (m w).1 ≡ (o, (m w).1)
      by_outcome (returns a) = refl
      by_outcome panics = refl

  run_alone->>= :
      {B : Type 0} (c : Code W A) (f : A → Code W B) (w : W)
      → run_alone (c >>= f) w ≡ after (run_alone c w) (λ a. run_alone (f a))
  unfolding run_alone
  run_alone->>= (ends a) f w = refl
  run_alone->>= fails f w = refl
  run_alone->>= (acts change next) f w = run_alone->>= (next w) f (change w)

  -- Two parts that do the same, one after the other.
  bind_alone :
      {B : Type 0} (c : Code W A) (m : M W A) (f : A → Code W B) (g : A → M W B)
      → ((w : W) → run_alone c w ≡ m w)
      → ((a : A) (w : W) → run_alone (f a) w ≡ g a w)
      → (w : W) → run_alone (c >>= f) w ≡ after (m w) g
  bind_alone c m f g p q w =
      run_alone->>= c f w
      ∙ ap (λ (r : Outcome A × W). after r (λ a. run_alone (f a))) (p w)
      ∙ rest (m w)
    where
      rest : (r : Outcome A × W) → after r (λ a. run_alone (f a)) ≡ after r g
      rest (returns a, v) = q a v
      rest (panics, v) = refl

module _ (s : CacheStore) (gin : ResponseWriter) where
  open s use {World, Pool}
  open gin use {Writer}

  abbrev chunk_code :
      CachedWriter s gin → Bytes → ℕ × Option Error → Code World (CachedWriter s gin)
  chunk_code w chunk (n, some e) = ends w
  chunk_code w chunk (n, none) =
      call (s.set w.store w.key (to_cache s gin w chunk) w.expire) >>= λ _. ends w

  -- An action of the handler.
  unfoldable pub act_code : CachedWriter s gin → Action s gin → Code World (CachedWriter s gin)
  unfolding write_header
  act_code w (writes_header code) = ends (write_header s gin w code)
  act_code w (sets_status code) = ends (record w { writer = gin.write_header w.writer code })
  act_code w (sets_header k v) = ends (record w { writer = gin.set_header w.writer k v })
  act_code w (adds_header k v) = ends (record w { writer = gin.add_header w.writer k v })
  act_code w (writes chunk) =
      let (ret, inner) = gin.write w.writer chunk in
      chunk_code (record w { writer = inner }) chunk ret
  act_code w (writes_string chunk) =
      let (ret, inner) = gin.write_string w.writer chunk in
      chunk_code (record w { writer = inner }) chunk ret

  unfoldable pub handle_code :
      CachedWriter s gin → List (Action s gin) → Code World (CachedWriter s gin)
  unfolding act_code
  handle_code w [] = ends w
  handle_code w (a ∷ rest) = act_code w a >>= λ w'. handle_code w' rest

  abbrev handled : Pool → ℤ → List (Action s gin) → Bytes → Writer → Code World Writer
  handled store expire actions key w =
      handle_code (new_cached_writer s gin store expire w key) actions >>= λ c. ends c.writer

  unfoldable pub cache_page_code :
      (Bytes → Bytes) → Bytes → Pool → ℤ → List (Action s gin) → Bytes → Writer → Code World Writer
  unfolding handle_code new_cached_writer replay url_escape
  cache_page_code sha1 prefix store expire actions uri w =
      let key = url_escape sha1 prefix uri in
      call (s.get store key (pointer response_type)) >>= λ g. elim (g.error) [
        | some e ↦ handled store expire actions key w
        | none ↦
            if okay_to_cache s gin (read_response s gin g)
            then ends (replay s gin w (read_response s gin g))
            else handled store expire actions key w
      ]

  chunk_alone :
      (c : CachedWriter s gin) (chunk : Bytes) (ret : ℕ × Option Error) (w : World)
      → run_alone (chunk_code c chunk ret) w
        ≡ after (cache_chunk s gin c chunk ret w) (λ r. pure r.0)
  unfolding run_alone
  chunk_alone c chunk (n, some e) w = refl
  chunk_alone c chunk (n, none) w =
      let stored : M World (Option Error) = s.set c.store c.key (to_cache s gin c chunk) c.expire in
      bind_alone (call stored) stored (λ _. ends c) (λ _. pure c) (run_alone-call stored)
        (λ _ v. refl) w
      ∙ drop_count (stored w)
    where
      drop_count :
          (r : Outcome (Option Error) × World)
          → after r (λ _. pure c)
            ≡ after {A = CachedWriter s gin × (ℕ × Option Error)}
                (after r (λ _. pure (c, (n, none))))
                (λ x. pure x.0)
      drop_count (returns a, v) = refl
      drop_count (panics, v) = refl

  string_alone :
      (c : CachedWriter s gin) (chunk : Bytes) (ret : ℕ × Option Error) (w : World)
      → run_alone (chunk_code c chunk ret) w
        ≡ after (cache_string s gin c chunk ret w) (λ r. pure r.0)
  unfolding run_alone
  string_alone c chunk (n, some e) w = refl
  string_alone c chunk (n, none) w =
      let stored : M World (Option Error) = s.set c.store c.key (to_cache s gin c chunk) c.expire in
      bind_alone (call stored) stored (λ _. ends c) (λ _. pure c) (run_alone-call stored)
        (λ _ v. refl) w
      ∙ drop_count (stored w)
    where
      drop_count :
          (r : Outcome (Option Error) × World)
          → after r (λ _. pure c)
            ≡ after {A = CachedWriter s gin × (ℕ × Option Error)}
                (after r (λ e. pure (c, elim e [ none ↦ (n, none) | some x ↦ (0, some x) ])))
                (λ x. pure x.0)
      drop_count (returns a, v) = refl
      drop_count (panics, v) = refl

  act_alone :
      (a : Action s gin) (c : CachedWriter s gin) (w : World)
      → run_alone (act_code c a) w ≡ act s gin c a w
  unfolding act_code act run_alone write write_string
  act_alone (writes_header code) c w = refl
  act_alone (sets_status code) c w = refl
  act_alone (sets_header k v) c w = refl
  act_alone (adds_header k v) c w = refl
  act_alone (writes chunk) c w =
      let (ret, inner) = gin.write c.writer chunk in
      chunk_alone (record c { writer = inner }) chunk ret w
  act_alone (writes_string chunk) c w =
      let (ret, inner) = gin.write_string c.writer chunk in
      string_alone (record c { writer = inner }) chunk ret w

  handle_alone :
      (actions : List (Action s gin)) (c : CachedWriter s gin) (w : World)
      → run_alone (handle_code c actions) w ≡ handle s gin c actions w
  unfolding handle_code handle run_alone
  handle_alone [] c w = refl
  handle_alone (a ∷ rest) c w =
      bind_alone (act_code c a) (act s gin c a) (λ c'. handle_code c' rest)
        (λ c'. handle s gin c' rest) (act_alone a c) (λ c'. handle_alone rest c') w

  handled_alone :
      (store : Pool) (expire : ℤ) (actions : List (Action s gin)) (key : Bytes) (x : Writer)
      (w : World)
      → run_alone (handled store expire actions key x) w
        ≡ handle_cached s gin store expire actions key x w
  unfolding run_alone
  handled_alone store expire actions key x =
      let c = new_cached_writer s gin store expire x key in
      bind_alone (handle_code c actions) (handle s gin c actions) (λ r. ends r.writer)
        (λ r. pure r.writer) (handle_alone actions c) (λ r v. refl)

  answered_alone :
      (c : Code World Writer) (m : M World Writer)
      → ((w : World) → run_alone c w ≡ m w)
      → (o : Option Error) (b : Bool) (x : Writer) (w : World)
      → let answer : M World Writer = elim o [ some e ↦ m | none ↦ if b then pure x else m ] in
        run_alone (elim o [ some e ↦ c | none ↦ if b then ends x else c ]) w ≡ answer w
  unfolding run_alone
  answered_alone c m h (some e) b x w = h w
  answered_alone c m h none true x w = refl
  answered_alone c m h none false x w = h w

  module _ (sha1 : Bytes → Bytes) (prefix : Bytes) (store : Pool) (expire : ℤ) where
    -- Run alone, the code calls the store as `cache_page` does, to the same effect.
    pub cache_page_alone :
        (actions : List (Action s gin)) (uri : Bytes) (x : Writer) (w : World)
        → run_alone (cache_page_code sha1 prefix store expire actions uri x) w
          ≡ cache_page s gin sha1 prefix store expire actions uri x w
    unfolding cache_page_code cache_page
    cache_page_alone actions uri x =
        let key = url_escape sha1 prefix uri in
        let asked : M World Got = s.get store key (pointer response_type) in
        let answered : Got → M World Writer = λ g. elim (g.error) [
          | some e ↦ handle_cached s gin store expire actions key x
          | none ↦
              if okay_to_cache s gin (read_response s gin g)
              then pure (replay s gin x (read_response s gin g))
              else handle_cached s gin store expire actions key x
        ] in
        bind_alone (call asked) asked _ answered (run_alone-call asked) (λ g w.
          answered_alone (handled store expire actions key x)
            (handle_cached s gin store expire actions key x)
            (handled_alone store expire actions key x) g.error
            (okay_to_cache s gin (read_response s gin g)) (replay s gin x (read_response s gin g))
            w)
