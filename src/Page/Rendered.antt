-- ===== src/Page/Rendered.antt =====
-- Pages that gin renders for a handler (galapagos_gin/cache/cache.go): the status that the handler
-- gives to its context goes past the caching writer.
use go_cache.Prelude.{ℕ, Option, List, [], ◌∷◌, Bytes, Bool, true, false}
use go_cache.Prelude.Int.{ℤ, pos}
use go_cache.Error.{Error}
use go_cache.Value.{ResponseCache}
use go_cache.Store.{CacheStore}
use go_cache.Page.{
  ResponseWriter, Action, writes_header, sets_status, sets_header, adds_header, writes,
  writes_string, write, write_string,
}
use go_cache.Page.Url.{url_escape}

module _ (s : CacheStore) (gin : ResponseWriter) where
  open gin use {Writer}

  -- What a handler does before it sends a text, without a call of `WriteHeader`.
  abbrev pub IsHead : Action s gin → Type 0
  IsHead (writes_header code) = ⊥
  IsHead (writes chunk) = ⊥
  IsHead (writes_string chunk) = ⊥
  IsHead a = Unit {0}

  abbrev pub AllHead : List (Action s gin) → Type 0
  AllHead [] = Unit {0}
  AllHead (a ∷ rest) = IsHead a × AllHead rest

  -- The writer of the context after them.
  abbrev pub headed : Writer → List (Action s gin) → Writer
  headed x [] = x
  headed x (sets_status code ∷ rest) = headed (gin.write_header x code) rest
  headed x (sets_header k v ∷ rest) = headed (gin.set_header x k v) rest
  headed x (adds_header k v ∷ rest) = headed (gin.add_header x k v) rest
  headed x (a ∷ rest) = headed x rest

  -- A text goes to `WriteString`, and JSON to `Write`.
  abbrev pub last_write : Bool → Bytes → Action s gin
  last_write true body = writes_string body
  last_write false body = writes body

  abbrev pub sends : Bool → Writer → Bytes → (ℕ × Option Error) × Writer
  sends true x body = gin.write_string x body
  sends false x body = gin.write x body

  abbrev pub rendered : Bool → Writer → List (Action s gin) → Bytes → Writer
  rendered is_text x head body = (sends is_text (headed x head) body).1

  -- The page under the status 0.
  abbrev pub without_status : Bool → Writer → List (Action s gin) → Bytes → ResponseCache
  without_status is_text x head body = record {
    status = pos 0;
    header = gin.header (rendered is_text x head body);
    body = body;
  }

  module _ (sha1 : Bytes → Bytes) (prefix uri : Bytes) (p : s.Pool) (exp : ℤ) (is_text : Bool)
      (body : Bytes) where
    abbrev key : Bytes
    key = url_escape sha1 prefix uri
