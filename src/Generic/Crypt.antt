-- ===== src/Generic/Crypt.antt =====
-- `decryptEntry` after `encryptEntry` (generic.go).
use go_cache.Prelude.{
  ℕ, zero, suc, ◌%◌, ◌≤◌, ◌<◌, ◌≡◌, ◌≢◌, refl, ap, ◌∙◌, subst, true, [], ◌∷◌, ◌++◌, length,
  replicate, Bytes, arith,
}
use go_cache.Prelude.Int.{pos}
use go_cache.Outcome.{Result, ◌>>=◌, returns, ok, err}
use go_cache.Padding.{PaddingError, err_padding_size, unpadding, padding, pad_len}
use go_cache.Padding.RoundTrip.{padding-blocks, unpadding-padding, unpadding-padding_empty}
use go_cache.Cipher.{AreBytes, decrypt_byte_array}
use go_cache.Cipher.RoundTrip.{decrypt_byte_array-encrypt_byte_array}
use go_cache.Error.{cannot_unpad}
use go_cache.Generic.{relabel, Codec, Settings, encrypt_entry, decrypt_entry}

replicate-AreBytes : (n a : ℕ) → a < 256 → AreBytes (replicate n a)
replicate-AreBytes zero a h = tt
replicate-AreBytes (suc n) a h = (h, replicate-AreBytes n a h)

append-AreBytes : (xs ys : Bytes) → AreBytes xs → AreBytes ys → AreBytes (xs ++ ys)
append-AreBytes [] ys h k = k
append-AreBytes (x ∷ xs) ys h k = (h.0, append-AreBytes xs ys h.1 k)

padded-AreBytes : (src p : Bytes) → AreBytes src → padding src (pos 16) ≡ returns p → AreBytes p
unfolding padding
padded-AreBytes src p h e = subst AreBytes (ground arith) (
    append-AreBytes src (replicate (pad_len (length src) 16) (pad_len (length src) 16 % 256)) h
      (replicate-AreBytes _ _ (omega arith)))

module _ {Pool : Type 0} (k : Codec) (c : Settings Pool) (on : c.encrypt_data ≡ true)
    (long : 16 ≤ length c.shared_secret) (secret : AreBytes c.shared_secret) where
  -- The bytes that an entry is encrypted to are decrypted to its padding.
  encrypted :
      (input : Bytes)
      → AreBytes input
      → (p out : Bytes) × (padding input (pos 16) ≡ returns p)
        × (encrypt_entry k c input ≡ returns (ok out))
        × (length input < length out)
        × (length out % 16 ≡ 0)
        × (decrypt_byte_array k.aes out c.shared_secret ≡ returns (ok p))
  unfolding encrypt_entry
  encrypted input h =
      let (p, padded, _, more, _, blocks) = padding-blocks input 16 (omega arith) in
      let (out, made, same, back) =
        decrypt_byte_array-encrypt_byte_array k.aes c.shared_secret p long secret
          (padded-AreBytes input p h padded) blocks in
      let sealed : encrypt_entry k c input ≡ returns (ok out) =
        rw on (rw (padded, encrypt_entry) (rw (made, encrypt_entry) refl)) in
      (p, out, padded, sealed, omega arith, ap (λ (n : ℕ). n % 16) same ∙ blocks, back)

  decrypts :
      (out p : Bytes) (r : Result PaddingError Bytes)
      → decrypt_byte_array k.aes out c.shared_secret ≡ returns (ok p)
      → unpadding p (pos 16) ≡ returns r
      → decrypt_entry k c out ≡ returns (relabel cannot_unpad r)
  unfolding decrypt_entry
  decrypts out p r back unpads = rw on (rw (back, decrypt_entry) (rw (unpads, decrypt_entry) refl))

  -- With encryption on and a secret of 16 bytes or more, bytes that are not empty are encrypted to
  -- whole blocks, more than there were, and decrypted to what they were.
  pub decrypt_entry-encrypt_entry :
      (input : Bytes)
      → AreBytes input
      → input ≢ []
      → (out : Bytes) × (encrypt_entry k c input ≡ returns (ok out))
        × (length input < length out)
        × (length out % 16 ≡ 0)
        × (decrypt_entry k c out ≡ returns (ok input))
  decrypt_entry-encrypt_entry input h ne =
      let (p, out, padded, made, more, blocks, back) = encrypted input h in
      let back_again : unpadding p (pos 16) ≡ returns (ok input) =
        subst (λ o. (o >>= λ q. unpadding q (pos 16)) ≡ returns (ok input)) padded
          (unpadding-padding input 16 ne (omega arith) (omega arith)) in
      (out, made, more, blocks, decrypts out p (ok input) back back_again)

  -- No bytes at all are encrypted as well, and cannot be decrypted: the padding is refused.
  pub decrypt_entry-encrypt_entry_empty :
      (out : Bytes) × (encrypt_entry k c [] ≡ returns (ok out))
      × (decrypt_entry k c out ≡ returns (err (cannot_unpad err_padding_size)))
  decrypt_entry-encrypt_entry_empty =
      let (p, out, padded, made, more, blocks, back) = encrypted [] tt in
      let refused : unpadding p (pos 16) ≡ returns (err err_padding_size) =
        subst (λ o. (o >>= λ q. unpadding q (pos 16)) ≡ returns (err err_padding_size)) padded
          (unpadding-padding_empty 16 (omega arith) (omega arith)) in
      (out, made, decrypts out p (err err_padding_size) back refused)
