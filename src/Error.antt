-- ===== src/Error.antt =====
-- The errors of the program. The three of the store interface are named; any other error of a
-- store is known by its text. `cannot_encrypt` and the like are the texts that generic.go builds.
use go_cache.Prelude.{Bool, Bytes, codes, bytes_eq}
use go_cache.Padding.{PaddingError}
use go_cache.Cipher.{CryptError}

pub data Error : Type 0 where
  cache_miss not_stored not_support : Error
  store_error : Bytes → Error
  no_cache : Error
  cannot_encrypt cannot_decrypt : CryptError → Error
  cannot_unpad : PaddingError → Error
  cannot_encode cannot_decode : Error

-- `err.Error() == persistence.ErrCacheMiss.Error()`: the texts are compared, not the values.
unfoldable pub is_cache_miss : Error → Bool
unfolding bytes_eq
is_cache_miss cache_miss = Bool.true
is_cache_miss (store_error text) = bytes_eq text (codes "cache: key not found.")
is_cache_miss _ = Bool.false
