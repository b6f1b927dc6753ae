-- ===== src/Padding/RoundTrip.antt =====
-- What `Padding` adds and what `Unpadding` gives back (pkcs.go).
use go_cache.Prelude.{
  ℕ, zero, suc, ◌+◌, ◌-◌, ◌%◌, ◌≤◌, ◌<◌, ◌≡◌, ◌≢◌, refl, ap, ◌∙◌, [], ◌∷◌, ◌++◌, some, length, take,
  replicate, Bytes, get_elem?, length-append, length-replicate, take-append, take-append, leb,
  if◌then◌else◌, get_elem?-append, get_elem?-replicate, arith,
}
use go_cache.Prelude.Int.{pos}
use go_cache.Outcome.{returns, ok, err, ◌>>=◌}
use go_cache.Padding.{err_padding_size, unpadding, pad_len, padding}

pad_len_bounds : (n b : ℕ) → 0 < b → (0 < pad_len n b) × (pad_len n b ≤ b)
unfolding pad_len
pad_len_bounds n b h = (omega arith, omega arith)

pad_len-fills : (n b : ℕ) → 0 < b → (n + pad_len n b) % b ≡ 0
unfolding pad_len
pad_len-fills n b h = grind arith

length-padded : (src : Bytes) (n a : ℕ) → length (src ++ replicate n a) ≡ length src + n
length-padded src n a = omega (arith, length-append src (replicate n a), length-replicate n a)

last-padded :
    (src : Bytes) (n a : ℕ)
    → 0 < n
    → get_elem? (src ++ replicate n a) (length (src ++ replicate n a) - 1) ≡ some a
last-padded src n a h =
    get_elem?-append src (replicate n a) _ (n - 1) (omega (arith, length-padded src n a))
    ∙ get_elem?-replicate n (n - 1) a (omega arith)

take-padded :
    (src : Bytes) (n a : ℕ) → take (length (src ++ replicate n a) - n) (src ++ replicate n a) ≡ src
take-padded src n a =
    ap (λ (k : ℕ). take k (src ++ replicate n a)) (omega (arith, length-padded src n a))
    ∙ take-append src (replicate n a)

length-pos : (src : Bytes) → src ≢ [] → 0 < length src
length-pos [] h = absurd (h refl)
length-pos (x ∷ xs) h = omega arith

unpadding-padded :
    (src : Bytes) (n b : ℕ)
    → 0 < n
    → n ≤ b
    → unpadding (src ++ replicate n n) (pos b)
      ≡ returns (if leb (length src) 0 then err err_padding_size else ok src)
unfolding unpadding
unpadding-padded src n b h p =
    ground (arith, last-padded src n n h, length-padded src n n, take-padded src n n)

-- Padding a text that is not empty to blocks of at most 255 bytes and removing the padding gives
-- the text back.
pub unpadding-padding :
    (src : Bytes) (b : ℕ)
    → src ≢ []
    → 0 < b
    → b < 256
    → (padding src (pos b) >>= λ p. unpadding p (pos b)) ≡ returns (ok src)
unfolding padding
unpadding-padding src zero h p q = absurd (omega arith)
unpadding-padding src (suc b) h p q = ground (
  arith,
  pad_len_bounds (length src) (suc b),
  length-pos src h,
  unpadding-padded src (pad_len (length src) (suc b)) (suc b),
)

-- The empty text does not come back: its padding is a whole block, which `Unpadding` refuses.
pub unpadding-padding_empty :
    (b : ℕ)
    → 0 < b
    → b < 256
    → (padding [] (pos b) >>= λ p. unpadding p (pos b)) ≡ returns (err err_padding_size)
unfolding padding
unpadding-padding_empty zero p q = absurd (omega arith)
unpadding-padding_empty (suc b) p q =
    ground (arith, pad_len_bounds 0 (suc b), unpadding-padded [] (pad_len 0 (suc b)) (suc b))

-- The padded text starts with the text, is longer by one to `b` bytes, and fills whole blocks.
pub padding-blocks :
    (src : Bytes) (b : ℕ)
    → 0 < b
    → (p : Bytes) × (padding src (pos b) ≡ returns p)
      × (take (length src) p ≡ src)
      × (length src < length p)
      × (length p ≤ length src + b)
      × (length p % b ≡ 0)
unfolding padding pad_len
padding-blocks src zero h = absurd (omega arith)
padding-blocks src (suc b) h =
    let n = pad_len (length src) (suc b) in
    let e = length-padded src n (n % 256) in
    let bounds = pad_len_bounds (length src) (suc b) h in
    (
      src ++ replicate n (n % 256),
      refl,
      take-append src (replicate n (n % 256)),
      omega arith,
      omega arith,
      rw e (pad_len-fills (length src) (suc b) h),
    )
