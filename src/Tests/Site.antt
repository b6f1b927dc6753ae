-- ===== src/Tests/Site.antt =====
-- Pages that are rendered, tried over a store of one value and a writer that records a status, a
-- header and the data that it is sent.
use go_cache.Prelude.{none, List, [], ◌∷◌, ◌++◌, Bytes, codes, length, true, false}
use go_cache.Prelude.Int.{ℤ, pos}
use go_cache.Value.{Value, Header, ResponseCache, string}
use go_cache.Lru.Recent.{recent}
use go_cache.Generic.{alone}
use go_cache.Page.{ResponseWriter, Action, sets_status, sets_header, writes_string, canonical}
use go_cache.Page.Rendered.{without_status}
use go_cache.Example.Setup.{Caches}
use go_cache.Example.Routes.{Renders, page_store}
use go_cache.Example.Routes.Again.{body, kept_page}
use go_cache.Tests.Data.{one, codec, store_settings, at}

abbrev Sent : Type 0
Sent = ℤ × Header × Bytes

abbrev put : Sent → Bytes → Bytes → Sent
put (code, fields, sent) k v = (code, (canonical true k, v ∷ []) ∷ fields, sent)

abbrev sending : ResponseWriter
sending = record {
  Writer = Sent;
  write_header = λ w code. (code, w.1, w.2);
  header = λ w. w.1;
  add_header = put;
  set_header = put;
  write = λ w chunk. ((length chunk, none), (w.0, w.1, w.2 ++ chunk));
  write_string = λ w chunk. ((length chunk, none), (w.0, w.1, w.2 ++ chunk));
  status = λ w. w.0;
  is_written = λ w. false;
}

abbrev fresh : Sent
fresh = (pos 200, [], [])

-- A page that was not found.
abbrev not_found : List (Action one sending)
not_found = sets_status (pos 404) ∷ []

abbrev lost : ResponseCache
lost = without_status one sending false fresh not_found (codes "gone")

abbrev caches : Caches recent one
caches = record {
  generic_redis = alone store_settings;
  generic_in_memory = alone store_settings;
  lru_expiry = alone store_settings;
}

abbrev head : Bytes → List (Action (page_store codec one sending (λ w. at 1000)) sending)
head text = sets_status (pos 200) ∷ sets_header (codes "Content-Type") (codes "text/plain") ∷ []

-- `c.String` with the status 200.
abbrev string_of : Renders codec one sending (λ w. at 1000)
string_of code text =
    sets_status code
    ∷ sets_header (codes "Content-Type") (codes "text/plain")
    ∷ writes_string text
    ∷ []

abbrev kept : ResponseCache
kept =
    kept_page codec one sending (λ w. at 1000) recent (λ u. u) string_of (string []) caches fresh
      (head body)
