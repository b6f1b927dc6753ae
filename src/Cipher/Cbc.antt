-- ===== src/Cipher/Cbc.antt =====
-- CBC mode over the block cipher: what `CryptBlocks` enciphers it deciphers (generic.go).
use go_cache.Prelude.{
  ℕ, zero, suc, ◌*◌, ◌≤◌, ◌≡◌, refl, ap, sym, ◌∙◌, [], ◌∷◌, ◌++◌, length, take, drop, Bytes,
  length-append, length-take, length-drop, take-append, drop-append, take-append-drop, arith,
}
use go_cache.Cipher.{
  AreBytes, IsBlock, BlockCipher, block_size, xor_bytes, cbc_encrypt, cbc_decrypt,
}
use go_cache.Cipher.Xor.{xor_bytes-xor_bytes, length-xor_bytes, xor_bytes-AreBytes}

take-AreBytes : (n : ℕ) (xs : Bytes) → AreBytes xs → AreBytes (take n xs)
take-AreBytes zero xs h = tt
take-AreBytes (suc n) [] h = tt
take-AreBytes (suc n) (x ∷ xs) h = (h.0, take-AreBytes n xs h.1)

drop-AreBytes : (n : ℕ) (xs : Bytes) → AreBytes xs → AreBytes (drop n xs)
drop-AreBytes zero xs h = h
drop-AreBytes (suc n) [] h = tt
drop-AreBytes (suc n) (x ∷ xs) h = drop-AreBytes n xs h.1

take-block : (c rest : Bytes) → IsBlock c → take block_size (c ++ rest) ≡ c
take-block c rest h = ap (λ (n : ℕ). take n (c ++ rest)) (sym h.whole) ∙ take-append c rest

drop-block : (c rest : Bytes) → IsBlock c → drop block_size (c ++ rest) ≡ rest
drop-block c rest h = ap (λ (n : ℕ). drop n (c ++ rest)) (sym h.whole) ∙ drop-append c rest

take-IsBlock : (xs : Bytes) → block_size ≤ length xs → AreBytes xs → IsBlock (take block_size xs)
take-IsBlock xs h p = record {
  whole = length-take block_size xs h;
  bytes = take-AreBytes block_size xs p;
}

mask-IsBlock : (xs iv : Bytes) → IsBlock xs → IsBlock iv → IsBlock (xor_bytes xs iv)
mask-IsBlock xs iv h k = record {
  whole = omega (arith, length-xor_bytes xs iv (omega arith));
  bytes = xor_bytes-AreBytes xs iv h.bytes k.bytes;
}

module _ (aes : BlockCipher) (key : Bytes) where
  pub length-cbc_encrypt :
      (n : ℕ) (iv plain : Bytes)
      → IsBlock iv
      → AreBytes plain
      → length plain ≡ n * block_size
      → length (cbc_encrypt aes n key iv plain) ≡ n * block_size
  unfolding cbc_encrypt
  length-cbc_encrypt zero iv plain h p e = refl
  length-cbc_encrypt (suc n) iv plain h p e =
      let c-IsBlock =
        aes.encipher-IsBlock key _ (mask-IsBlock _ iv (take-IsBlock plain (omega arith) p) h) in
      omega (
        arith,
        length-append (aes.encipher key (xor_bytes (take block_size plain) iv)) (
            cbc_encrypt aes n key (aes.encipher key (xor_bytes (take block_size plain) iv))
              (drop block_size plain)),
        c-IsBlock.whole,
        length-cbc_encrypt n _ (drop block_size plain) c-IsBlock (drop-AreBytes block_size plain p)
            (omega (arith, length-drop block_size plain)),
      )

  -- Under the same key and vector, decryption undoes encryption of whole blocks.
  pub cbc_decrypt-cbc_encrypt :
      (n : ℕ) (iv plain : Bytes)
      → IsBlock iv
      → AreBytes plain
      → length plain ≡ n * block_size
      → cbc_decrypt aes n key iv (cbc_encrypt aes n key iv plain) ≡ plain
  unfolding cbc_encrypt cbc_decrypt
  cbc_decrypt-cbc_encrypt zero iv [] h p e = refl
  cbc_decrypt-cbc_encrypt zero iv (x ∷ xs) h p e = absurd (omega arith)
  cbc_decrypt-cbc_encrypt (suc n) iv plain h p e =
      let first = take block_size plain in
      let first-IsBlock = take-IsBlock plain (omega arith) p in
      let c = aes.encipher key (xor_bytes first iv) in
      let mask = mask-IsBlock first iv first-IsBlock h in
      let c-IsBlock = aes.encipher-IsBlock key _ mask in
      let rest = cbc_encrypt aes n key c (drop block_size plain) in
      rw (take-block c rest c-IsBlock, drop-block c rest c-IsBlock)
        (rw
          (
            aes.decipher-encipher key _ mask,
            xor_bytes-xor_bytes first iv (omega (arith, first-IsBlock.whole, h.whole))
                first-IsBlock.bytes h.bytes,
            cbc_decrypt-cbc_encrypt n c (drop block_size plain) c-IsBlock
                (drop-AreBytes block_size plain p) (omega (arith, length-drop block_size plain)),
          )
          (take-append-drop block_size plain))
