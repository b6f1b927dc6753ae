-- ===== src/Page/Url.antt =====
-- The key of a page (galapagos_gin/cache/cache.go, `urlEscape`).
use go_cache.Prelude.{
  ℕ, ◌+◌, ◌/◌, ◌%◌, ◌≤◌, ◌<◌, ◌≡◌, ◌≢◌, refl, sym, ap, ap₂, ◌∙◌, [], ◌∷◌, ◌++◌, Bool, true, ◌&&◌,
  ◌||◌, Bytes, codes, length, leb, ltb, ◌==◌, if◌then◌else◌, drop, drop-append, length-append,
  arith,
}
use go_cache.Cipher.{AreBytes}

-- The bytes that `url.QueryEscape` leaves alone: letters, digits and four more.
unfoldable pub is_unreserved : ℕ → Bool
is_unreserved b =
    (leb b'a' b && leb b b'z')
    || ((leb b'A' b && leb b b'Z')
        || ((leb b'0' b && leb b b'9')
            || ((b == b'-') || ((b == b'_') || ((b == b'.') || (b == b'~'))))))

unfoldable pub upper_hex : ℕ → ℕ
upper_hex n = if ltb n 10 then 48 + n else 55 + n

unfoldable pub escape_byte : ℕ → Bytes
escape_byte b =
    if is_unreserved b
    then b ∷ []
    else if b == b' '
    then b'+' ∷ []
    else b'%' ∷ upper_hex (b / 16) ∷ upper_hex (b % 16) ∷ []

-- `url.QueryEscape`.
unfoldable pub query_escape : Bytes → Bytes
unfolding escape_byte
query_escape [] = []
query_escape (b ∷ bs) = escape_byte b ++ query_escape bs

-- A key of more than 200 bytes is replaced by the SHA-1 sum of the URL, a parameter.
unfoldable pub url_escape : (Bytes → Bytes) → Bytes → Bytes → Bytes
url_escape sha1 prefix u =
    let key = query_escape u in
    prefix ++ (codes ":" ++ (if ltb 200 (length key) then sha1 u else key))

unreserved_ne : (b : ℕ) → is_unreserved b ≡ true → (b ≢ 32) × (b ≢ 37) × (b ≢ 43)
unfolding is_unreserved
unreserved_ne b h = (λ e. ground arith, λ e. ground arith, λ e. ground arith)

upper_hex-injective : (m n : ℕ) → m < 16 → n < 16 → upper_hex m ≡ upper_hex n → m ≡ n
unfolding upper_hex
upper_hex-injective m n p q h = ground arith

abbrev head : Bytes → ℕ
head [] = 0
head (x ∷ xs) = x

escape_split :
    (a b : ℕ) (xs ys : Bytes)
    → a < 256
    → b < 256
    → escape_byte a ++ xs ≡ escape_byte b ++ ys
    → (a ≡ b) × (xs ≡ ys)
unfolding escape_byte
escape_split a b xs ys p q h = ground (
  arith,
  unreserved_ne a,
  unreserved_ne b,
  upper_hex-injective (a / 16) (b / 16),
  upper_hex-injective (a % 16) (b % 16),
)

escape_byte-ne : (b : ℕ) (xs : Bytes) → escape_byte b ++ xs ≢ []
unfolding escape_byte
escape_byte-ne b xs h = ground arith

query_escape-injective :
    (xs ys : Bytes) → AreBytes xs → AreBytes ys → query_escape xs ≡ query_escape ys → xs ≡ ys
unfolding query_escape
query_escape-injective [] [] p q h = refl
query_escape-injective [] (y ∷ ys) p q h = absurd (escape_byte-ne y _ (sym h))
query_escape-injective (x ∷ xs) [] p q h = absurd (escape_byte-ne x _ h)
query_escape-injective (x ∷ xs) (y ∷ ys) p q h =
    let both = escape_split x y _ _ p.0 q.0 h in
    ap₂ ◌∷◌ both.0 (query_escape-injective xs ys p.1 q.1 both.1)

append_cancel : (p xs ys : Bytes) → p ++ xs ≡ p ++ ys → xs ≡ ys
append_cancel p xs ys h = sym (drop-append p xs) ∙ ap (drop (length p)) h ∙ drop-append p ys

module _ (sha1 : Bytes → Bytes) (prefix : Bytes) where
  url_escape_short :
      (u : Bytes)
      → length (query_escape u) ≤ 200
      → url_escape sha1 prefix u ≡ prefix ++ (codes ":" ++ query_escape u)
  unfolding url_escape
  url_escape_short u h = ground arith

  -- Two URLs whose escaped forms have at most 200 bytes have the same key only if they are the
  -- same.
  pub url_escape-injective :
      (u v : Bytes)
      → AreBytes u
      → AreBytes v
      → length (query_escape u) ≤ 200
      → length (query_escape v) ≤ 200
      → url_escape sha1 prefix u ≡ url_escape sha1 prefix v
      → u ≡ v
  url_escape-injective u v p q m n h = query_escape-injective u v p q (
      append_cancel (codes ":") _ _
        (append_cancel prefix _ _ (sym (url_escape_short u m) ∙ h ∙ url_escape_short v n)))

  -- A key is longer than the prefix by 1 to 201 bytes, if a SHA-1 sum has 20.
  length-url_escape :
      (u : Bytes)
      → length (sha1 u) ≡ 20
      → (length prefix < length (url_escape sha1 prefix u))
        × (length (url_escape sha1 prefix u) ≤ length prefix + 201)
  unfolding url_escape
  length-url_escape u h = ground (
    arith,
    length-append prefix (codes ":" ++ sha1 u),
    length-append prefix (codes ":" ++ query_escape u),
  )
