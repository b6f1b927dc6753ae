-- ===== src/Cipher.antt =====
-- generic.go, `encryptByteArray` and `decryptByteArray`: AES in CBC mode under a key and a vector
-- made from the secret. The block cipher itself is a parameter; the mode is written out.
pub mod Xor
pub mod Cbc
pub mod RoundTrip
use Prim.Native.Nat.{bit_xor}
use go_cache.Prelude.{
  ℕ, zero, suc, ◌/◌, ◌%◌, ◌<◌, ◌≡◌, Bool, ◌||◌, [], ◌∷◌, ◌++◌, length, take, drop, Bytes, ◌==◌,
  if◌then◌else◌,
}
use go_cache.Outcome.{Outcome, returns, panics, Result, ok, err, ◌>>=◌}
use go_cache.Secret.{SecretError, key_and_iv}

abbrev pub block_size : ℕ
block_size = 16

abbrev pub AreBytes : Bytes → Type 0
AreBytes [] = Unit {0}
AreBytes (x ∷ xs) = (x < 256) × AreBytes xs

-- 16 bytes.
pub record IsBlock (b : Bytes) : Type 0 where
  pub whole : length b ≡ block_size
  pub bytes : AreBytes b

-- AES under a key, on one block. What the code relies on: a block becomes a block, and deciphering
-- undoes enciphering under the same key.
pub record BlockCipher : Type 0 where
  pub encipher : Bytes → Bytes → Bytes
  pub decipher : Bytes → Bytes → Bytes
  pub encipher-IsBlock : (key b : Bytes) → IsBlock b → IsBlock (encipher key b)
  pub decipher-encipher : (key b : Bytes) → IsBlock b → decipher key (encipher key b) ≡ b

unfoldable pub xor_bytes : Bytes → Bytes → Bytes
xor_bytes [] ys = []
xor_bytes (x ∷ xs) [] = []
xor_bytes (x ∷ xs) (y ∷ ys) = bit_xor x y ∷ xor_bytes xs ys

pub data CryptError : Type 0 where
  bad_secret : SecretError → CryptError
  bad_key_size : CryptError

-- The sizes that `aes.NewCipher` accepts.
is_key_size : ℕ → Bool
is_key_size n = (n == 16) || ((n == 24) || (n == 32))

module _ (aes : BlockCipher) where
  -- `CryptBlocks` of the two modes, over the blocks that are left.
  unfoldable pub cbc_encrypt : ℕ → Bytes → Bytes → Bytes → Bytes
  cbc_encrypt zero key iv plain = []
  cbc_encrypt (suc n) key iv plain =
      let c = aes.encipher key (xor_bytes (take block_size plain) iv) in
      c ++ cbc_encrypt n key c (drop block_size plain)

  unfoldable pub cbc_decrypt : ℕ → Bytes → Bytes → Bytes → Bytes
  cbc_decrypt zero key iv text = []
  cbc_decrypt (suc n) key iv text =
      let c = take block_size text in
      xor_bytes (aes.decipher key c) iv ++ cbc_decrypt n key c (drop block_size text)

  -- `mode.CryptBlocks(ciphertext, data)` panics on a broken block, as `NewCBCEncrypter` does on a
  -- vector of another size than a block's.
  crypt_blocks : (ℕ → Bytes → Bytes → Bytes → Bytes) → Bytes → Bytes → Bytes → Outcome Bytes
  crypt_blocks mode key iv input =
      if length iv == block_size
      then (if length input % block_size == 0
          then returns (mode (length input / block_size) key iv input)
          else panics)
      else panics

  unfoldable pub encrypt_byte_array : Bytes → Bytes → Outcome (Result CryptError Bytes)
  unfolding is_key_size crypt_blocks
  encrypt_byte_array input secret = elim (key_and_iv secret) [
    | err e ↦ returns (err (bad_secret e))
    | ok (key, iv) ↦
        if is_key_size (length key)
        then (do out ← crypt_blocks cbc_encrypt key iv input; returns (ok out))
        else returns (err bad_key_size)
  ]

  unfoldable pub decrypt_byte_array : Bytes → Bytes → Outcome (Result CryptError Bytes)
  unfolding is_key_size crypt_blocks
  decrypt_byte_array input secret = elim (key_and_iv secret) [
    | err e ↦ returns (err (bad_secret e))
    | ok (key, iv) ↦
        if is_key_size (length key)
        then (do out ← crypt_blocks cbc_decrypt key iv input; returns (ok out))
        else returns (err bad_key_size)
  ]
