-- ===== src/Cipher/RoundTrip.antt =====
-- `decryptByteArray` after `encryptByteArray` (generic.go).
use go_cache.Prelude.{
  ℕ, ◌*◌, ◌/◌, ◌%◌, ◌≤◌, ◌≡◌, refl, ap, sym, ◌∙◌, ◌∷◌, length, take, reverse, Bytes, arith,
}
use go_cache.Outcome.{returns, ok}
use go_cache.Secret.Alias.{key_and_iv_lem}
use go_cache.Cipher.{
  AreBytes, IsBlock, BlockCipher, cbc_encrypt, cbc_decrypt, encrypt_byte_array, decrypt_byte_array,
}
use go_cache.Cipher.Cbc.{length-cbc_encrypt, cbc_decrypt-cbc_encrypt}

-- The first 16 bytes of a secret, backwards, are a block.
reversed-IsBlock :
    (secret : Bytes) → 16 ≤ length secret → AreBytes secret → IsBlock (reverse (take 16 secret))
reversed-IsBlock (a ∷ b ∷ c ∷ d ∷ e ∷ f ∷ g ∷ h ∷ i ∷ j ∷ k ∷ l ∷ m ∷ n ∷ o ∷ p ∷ r) q w = record {
  whole = refl;
  bytes = omega arith;
}
reversed-IsBlock s q w = absurd (omega arith)

module _ (aes : BlockCipher) (secret input : Bytes) (long : 16 ≤ length secret) where
  abbrev pub key : Bytes
  key = reverse (take 16 secret)

  pub encrypt_byte_array_lem :
      AreBytes secret
      → length input % 16 ≡ 0
      → encrypt_byte_array aes input secret
        ≡ returns (ok (cbc_encrypt aes (length input / 16) key key input))
  unfolding encrypt_byte_array
  encrypt_byte_array_lem w h =
      rw ((key_and_iv_lem secret).0 long, encrypt_byte_array)
        (ground (arith, (reversed-IsBlock secret long w).whole))

  pub decrypt_byte_array_lem :
      AreBytes secret
      → length input % 16 ≡ 0
      → decrypt_byte_array aes input secret
        ≡ returns (ok (cbc_decrypt aes (length input / 16) key key input))
  unfolding decrypt_byte_array
  decrypt_byte_array_lem w h =
      rw ((key_and_iv_lem secret).0 long, decrypt_byte_array)
        (ground (arith, (reversed-IsBlock secret long w).whole))

-- With a secret of 16 bytes or more, a plaintext of whole blocks is enciphered to as many bytes,
-- and these are deciphered to the plaintext.
pub decrypt_byte_array-encrypt_byte_array :
    (aes : BlockCipher) (secret input : Bytes)
    → 16 ≤ length secret
    → AreBytes secret
    → AreBytes input
    → length input % 16 ≡ 0
    → (out : Bytes) × (encrypt_byte_array aes input secret ≡ returns (ok out))
      × (length out ≡ length input)
      × (decrypt_byte_array aes out secret ≡ returns (ok input))
decrypt_byte_array-encrypt_byte_array aes secret input long w p h =
    let k = reverse (take 16 secret) in
    let n : ℕ = length input / 16 in
    let whole : length input ≡ n * 16 = omega arith in
    let block = reversed-IsBlock secret long w in
    let out = cbc_encrypt aes n k k input in
    let same : length out ≡ length input =
      length-cbc_encrypt aes k n k input block p whole ∙ sym whole in
    (
      out,
      encrypt_byte_array_lem aes secret input long w h,
      same,
      decrypt_byte_array_lem aes secret out long w (omega arith)
          ∙ ap (λ (t : Bytes). returns (ok t))
              (ap (λ (m : ℕ). cbc_decrypt aes (m / 16) k k out) same
                ∙ cbc_decrypt-cbc_encrypt aes k n k input block p whole),
    )
