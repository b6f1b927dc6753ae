-- ===== src/Tests/Data.antt =====
-- Inputs: a cipher, a codec, a clock, a cache, secrets and entries.
use go_cache.Prelude.{
  ◌≡◌, refl, take, bytes_eq, ℕ, ◌+◌, refl, Option, none, some, [], ◌∷◌, true, false, Bytes, codes,
  arith,
}
use go_cache.Prelude.Int.{pos}
use go_cache.Clock.{Instant, unix_to_internal, Reads}
use go_cache.Outcome.{returns, panics}
use go_cache.Error.{cache_miss}
use go_cache.InMemory.{Got, got, failed}
use go_cache.Store.{CacheStore}
use go_cache.Cipher.{BlockCipher}
use go_cache.Value.{Value, string, entry}
use go_cache.Lru.Recent.{recent, room_for, Cache}
use go_cache.Lru.Run.{HoldsEntries}
use go_cache.Store.Local.{World}
use go_cache.Generic.{Codec, Settings, l1, writable}

-- A cipher that leaves a block as it is.
abbrev pub plain_cipher : BlockCipher
plain_cipher = record {
  encipher = λ key b. b;
  decipher = λ key b. b;
  encipher-IsBlock = λ key b h. h;
  decipher-encipher = λ key b h. refl;
}

abbrev pub encode_text : Value → Option Bytes
encode_text (string s) = some (7 ∷ s)
encode_text _ = none

abbrev pub decode_text : Bytes → Option Value
decode_text [] = none
decode_text (tag ∷ s) = some (string s)

abbrev pub codec : Codec
codec = record {
  aes = plain_cipher;
  hmac = λ secret message. take 3 message;
  gob_encode = encode_text;
  gob_decode = decode_text;
}

abbrev pub key : Bytes
key = codes "key"

abbrev pub secret : Bytes
secret = codes "secret-must-be-min-16chars"

-- Second 1000 after 1970, and a little.
abbrev pub at : ℕ → Instant
at n = record { sec = pos (n + unix_to_internal); nsec = 5 }

pub at-Reads : Reads (at 1000) 1000
at-Reads = record { reads = refl; sane = omega arith }

pub later-Reads : Reads (at 1060) 1060
later-Reads = record { reads = refl; sane = omega arith }

abbrev pub empty : Cache
empty = room_for 10

abbrev pub holding : Value → ℕ → Cache
holding v expires_at = record { room = 10; items = (key, entry v (pos 900) (pos expires_at)) ∷ [] }

pub empty-HoldsEntries : HoldsEntries recent empty
empty-HoldsEntries k = tt

pub holding-HoldsEntries : (v : Value) (n : ℕ) → HoldsEntries recent (holding v n)
holding-HoldsEntries v n k = ground arith

pub held : (v : Value) (n : ℕ) → recent.peek (holding v n) key ≡ some (entry v (pos 900) (pos n))
unfolding bytes_eq
held v n = refl

abbrev pub world : World recent
world = record { lru = empty; now = at 1000 }

abbrev pub store_settings : Settings (Unit {0})
store_settings = record {
  cache = some tt;
  shared_secret = secret;
  default_exp = pos 3600000000000;
  c_type = writable;
  c_level = l1;
  key_prefix = some (codes "test");
  encrypt_data = true;
}

-- A store of one value.
abbrev pub read : Option Value → Got
read none = failed cache_miss
read (some v) = got v

abbrev pub one : CacheStore
one = record {
  World = Option Value;
  Pool = Unit {0};
  is_store = λ p. true;
  is_redis = λ p. false;
  get = λ p key t w. (returns (read w), w);
  set = λ p key v exp w. (returns none, some v);
  add = λ p key v exp w. (returns none, some v);
  replace = λ p key v exp w. (returns none, some v);
  delete = λ p key w. (returns none, none);
  increment = λ p key n w. (panics, w);
  decrement = λ p key n w. (panics, w);
  flush = λ p w. (returns none, none);
  expire_at = λ p key n w. (panics, w);
  get_expires_in = λ p key w. (panics, w);
  increment_atomic = λ p key n w. (panics, w);
  increment_check_set = λ p key n w. (panics, w);
}
