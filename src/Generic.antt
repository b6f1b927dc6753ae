-- ===== src/Generic.antt =====
-- generic.go and the types of redispool.go that it uses: the cache that signs keys and encrypts
-- entries, over a store. Logging is not modelled.
pub mod Crypt
pub mod Writes
pub mod Reads
pub mod RoundTrip
pub mod AsStore
pub mod Methods
use go_cache.Prelude.{Option, Bool, Bytes, if◌then◌else◌}
use go_cache.Prelude.Int.{ℤ, pos, eqb_ℤ}
use go_cache.Word.{add64, mul64}
use go_cache.Clock.{Instant, to_unix, whole_seconds, second}
use go_cache.Outcome.{Outcome, returns, Result, ok, err, ◌>>=◌}
use go_cache.Error.{Error, cannot_encrypt, cannot_decrypt, cannot_unpad}
use go_cache.Padding.{padding, unpadding}
use go_cache.Cipher.{CryptError, BlockCipher, encrypt_byte_array, decrypt_byte_array}
use go_cache.Value.{Value, GenericCacheEntry}

-- What generic.go takes from the crypto and gob packages: AES on a block, HMAC-SHA256 of a message
-- under a key, and the codec of a value, which fails on types that are not registered.
pub record Codec : Type 0 where
  pub aes : BlockCipher
  pub hmac : Bytes → Bytes → Bytes
  pub gob_encode : Value → Option Bytes
  pub gob_decode : Bytes → Option Value

-- `Type` and `Level` of redispool.go.
pub data CacheType : Type 0 where
  read_only writable : CacheType

pub data Level : Type 0 where
  l1 l2 : Level

-- The fields of a `GenericCache` but its `ReadCache`. `cache` and `key_prefix` may be nil.
pub record Settings (Pool : Type 0) : Type 0 where
  pub cache : Option Pool
  pub shared_secret : Bytes
  pub default_exp : ℤ
  pub c_type : CacheType
  pub c_level : Level
  pub key_prefix : Option Bytes
  pub encrypt_data : Bool

-- A cache whose `ReadCache` is nil, and one that has a `ReadCache`.
pub data GenericCache (Pool : Type 0) : Type 0 where
  alone : Settings Pool → GenericCache Pool
  with_read_cache : Settings Pool → GenericCache Pool → GenericCache Pool

-- `c.f` of any field but `ReadCache`.
abbrev pub settings : {Pool : Type 0} → GenericCache Pool → Settings Pool
settings (alone s) = s
settings (with_read_cache s r) = s

-- `time.Duration(expirySeconds) * time.Second`.
unfoldable pub store_exp : ℤ → ℤ
store_exp expiry_seconds = mul64 expiry_seconds (pos second)

unfoldable pub new_cache_with_pool :
    {Pool : Type 0}
    → Option Pool
    → CacheType
    → Level
    → Bytes
    → ℤ
    → Option Bytes
    → Bool
    → GenericCache Pool
unfolding store_exp
new_cache_with_pool pool c_type c_level secret expiry_seconds prefix encrypt = alone (record {
  cache = pool;
  shared_secret = secret;
  default_exp = store_exp expiry_seconds;
  c_type = c_type;
  c_level = c_level;
  key_prefix = prefix;
  encrypt_data = encrypt;
})

unfoldable pub new_cache_with_multi_pools :
    {Pool : Type 0}
    → Option Pool
    → Option Pool
    → Level
    → Bytes
    → ℤ
    → Option Bytes
    → Bool
    → GenericCache Pool
unfolding new_cache_with_pool
new_cache_with_multi_pools write_pool read_pool c_level secret expiry_seconds prefix encrypt =
    with_read_cache
      (settings
        (new_cache_with_pool write_pool writable c_level secret expiry_seconds prefix encrypt))
      (new_cache_with_pool read_pool read_only c_level secret expiry_seconds prefix encrypt)

-- `exp`, or the default if it is 0.
abbrev pub exp_or_default : ℤ → ℤ → ℤ
exp_or_default exp default_exp = if eqb_ℤ exp (pos 0) then default_exp else exp

-- `NewGenericCacheEntry`, here and of inmemory.go, from the default expiry of the cache.
unfoldable pub new_generic_cache_entry : ℤ → Value → ℤ → Instant → GenericCacheEntry
new_generic_cache_entry default_exp payload exp now = record {
  payload = payload;
  time_added = to_unix now;
  expires_at = add64 (to_unix now) (whole_seconds (exp_or_default exp default_exp));
}

-- An error of the cipher in the words of the caller.
abbrev pub relabel {ℓ} : {E : Type ℓ} {A : Type 0} → (E → Error) → Result E A → Result Error A
relabel f (ok a) = ok a
relabel f (err e) = err (f e)

-- The end of `decryptEntry`.
abbrev pub unpad : Result CryptError Bytes → Outcome (Result Error Bytes)
unpad (ok plain) = do unpadded ← unpadding plain (pos 16); returns (relabel cannot_unpad unpadded)
unpad (err e) = returns (err (cannot_decrypt e))

-- `encryptEntry`: a cache that does not encrypt hands the bytes on.
unfoldable pub encrypt_entry :
    {Pool : Type 0} → Codec → Settings Pool → Bytes → Outcome (Result Error Bytes)
encrypt_entry k c input =
    if c.encrypt_data
    then (do
      padded ← padding input (pos 16)
      encrypted ← encrypt_byte_array k.aes padded c.shared_secret
      returns (relabel cannot_encrypt encrypted))
    else returns (ok input)

-- `decryptEntry`.
unfoldable pub decrypt_entry :
    {Pool : Type 0} → Codec → Settings Pool → Bytes → Outcome (Result Error Bytes)
decrypt_entry k c input =
    if c.encrypt_data
    then (do decrypted ← decrypt_byte_array k.aes input c.shared_secret; unpad decrypted)
    else returns (ok input)
