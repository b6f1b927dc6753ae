-- ===== src/Keys/Distinct.antt =====
-- Keys are as distinct as the signatures in them (generic.go).
use go_cache.Prelude.{
  ℕ, ◌+◌, ◌*◌, ◌/◌, ◌%◌, ◌≡◌, ◌<◌, refl, sym, ap, ap₂, ◌∙◌, Option, none, some, [], ◌∷◌, ◌++◌,
  length, Bytes, codes, drop, drop-append, length-append, arith,
}
use go_cache.Cipher.{AreBytes}
use go_cache.Generic.{Codec, Settings}
use go_cache.Keys.{hex_digit, hex_encode, get_key}

hex_digit-injective : (m n : ℕ) → m < 16 → n < 16 → hex_digit m ≡ hex_digit n → m ≡ n
unfolding hex_digit
hex_digit-injective m n p q h = ground arith

byte_of_digits :
    (a b : ℕ)
    → a < 256
    → b < 256
    → hex_digit (a / 16) ≡ hex_digit (b / 16)
    → hex_digit (a % 16) ≡ hex_digit (b % 16)
    → a ≡ b
byte_of_digits a b p q h k = omega (
  arith,
  hex_digit-injective (a / 16) (b / 16) (omega arith) (omega arith) h,
  hex_digit-injective (a % 16) (b % 16) (omega arith) (omega arith) k,
)

abbrev head : Bytes → ℕ
head [] = 0
head (x ∷ xs) = x

hex_encode-injective :
    (xs ys : Bytes) → AreBytes xs → AreBytes ys → hex_encode xs ≡ hex_encode ys → xs ≡ ys
unfolding hex_encode
hex_encode-injective [] [] p q h = refl
hex_encode-injective [] (y ∷ ys) p q h = cc
hex_encode-injective (x ∷ xs) [] p q h = cc
hex_encode-injective (x ∷ xs) (y ∷ ys) p q h =
    ap₂ ◌∷◌ (byte_of_digits x y p.0 q.0 (ap head h) (ap (λ (l : Bytes). head (drop 1 l)) h))
      (hex_encode-injective xs ys p.1 q.1 (ap (drop 2) h))

length-hex_encode : (xs : Bytes) → length (hex_encode xs) ≡ 2 * length xs
unfolding hex_encode
length-hex_encode [] = refl
length-hex_encode (x ∷ xs) = omega (arith, length-hex_encode xs)

append_cancel : (p xs ys : Bytes) → p ++ xs ≡ p ++ ys → xs ≡ ys
append_cancel p xs ys h = sym (drop-append p xs) ∙ ap (drop (length p)) h ∙ drop-append p ys

module _ {Pool : Type 0} (k : Codec) (c : Settings Pool) where
  -- The part of a key before the signature.
  abbrev lead : Option Bytes → Bytes
  lead none = []
  lead (some prefix) = prefix ++ codes "::"

  get_key-lead :
      (m : Bytes) → get_key k c m ≡ lead c.key_prefix ++ hex_encode (k.hmac c.shared_secret m)
  unfolding get_key
  get_key-lead m = ground (arith)

  -- Two entries have the same key only if their signatures under the secret are the same.
  pub get_key-injective :
      (m n : Bytes)
      → AreBytes (k.hmac c.shared_secret m)
      → AreBytes (k.hmac c.shared_secret n)
      → get_key k c m ≡ get_key k c n
      → k.hmac c.shared_secret m ≡ k.hmac c.shared_secret n
  get_key-injective m n p q h =
      hex_encode-injective _ _ p q
        (append_cancel (lead c.key_prefix) _ _ (sym (get_key-lead m) ∙ h ∙ get_key-lead n))

  -- A key ends in the 64 digits of a signature of 32 bytes, and the prefix before it is longer by
  -- two than the one given, if there is one.
  pub length-get_key :
      (m : Bytes)
      → length (k.hmac c.shared_secret m) ≡ 32
      → length (get_key k c m) ≡ length (lead c.key_prefix) + 64
  length-get_key m h =
      ap length (get_key-lead m)
      ∙ omega (
        arith,
        length-append (lead c.key_prefix) (hex_encode (k.hmac c.shared_secret m)),
        length-hex_encode (k.hmac c.shared_secret m),
      )
