-- ===== src/Cipher/Xor.antt =====
-- `^` on bytes, as CBC mode uses it.
use Prim.Native.Nat.{bit_xor}
use go_cache.Prelude.{
  ℕ, zero, suc, ◌<◌, ◌≤◌, ◌≡◌, refl, ap₂, Bool, true, ◌&&◌, [], ◌∷◌, length, Bytes, ltb, ◌==◌,
  arith,
}
use go_cache.Cipher.{AreBytes, xor_bytes}

-- Whether a test passes on every number below a bound.
passes : (ℕ → Bool) → ℕ → Bool
passes test zero = true
passes test (suc bound) = passes test bound && test bound

passes_below :
    (test : ℕ → Bool) (bound byte : ℕ) → byte < bound → passes test bound ≡ true → test byte ≡ true
unfolding passes
passes_below test zero byte below passed = absurd (omega arith)
passes_below test (suc bound) byte below passed = ground (arith, passes_below test bound byte)

-- The second mask undoes the first, and a masked byte is a byte.
undoes : ℕ → ℕ → Bool
undoes x y = (bit_xor (bit_xor x y) y == x) && ltb (bit_xor x y) 256

undoes_all : passes (λ x. passes (undoes x) 256) 256 ≡ true
unfolding passes undoes
undoes_all = refl

undoes_byte : (x y : ℕ) → x < 256 → y < 256 → undoes x y ≡ true
undoes_byte x y p q =
    passes_below (undoes x) 256 y q (passes_below (λ x. passes (undoes x) 256) 256 x p undoes_all)

bit_xor-bit_xor : (x y : ℕ) → x < 256 → y < 256 → bit_xor (bit_xor x y) y ≡ x
unfolding undoes
bit_xor-bit_xor x y p q = ground (arith, undoes_byte x y p q)

bit_xor-lt : (x y : ℕ) → x < 256 → y < 256 → bit_xor x y < 256
unfolding undoes
bit_xor-lt x y p q = ground (arith, undoes_byte x y p q)

-- Twice the same mask gives the bytes back.
pub xor_bytes-xor_bytes :
    (xs ys : Bytes)
    → length xs ≤ length ys
    → AreBytes xs
    → AreBytes ys
    → xor_bytes (xor_bytes xs ys) ys ≡ xs
unfolding xor_bytes
xor_bytes-xor_bytes [] ys h p q = refl
xor_bytes-xor_bytes (x ∷ xs) [] h p q = absurd (omega arith)
xor_bytes-xor_bytes (x ∷ xs) (y ∷ ys) h p q =
    ap₂ ◌∷◌ (bit_xor-bit_xor x y p.0 q.0) (xor_bytes-xor_bytes xs ys (omega arith) p.1 q.1)

pub length-xor_bytes :
    (xs ys : Bytes) → length xs ≤ length ys → length (xor_bytes xs ys) ≡ length xs
unfolding xor_bytes
length-xor_bytes [] ys h = refl
length-xor_bytes (x ∷ xs) [] h = absurd (omega arith)
length-xor_bytes (x ∷ xs) (y ∷ ys) h = omega (arith, length-xor_bytes xs ys (omega arith))

pub xor_bytes-AreBytes : (xs ys : Bytes) → AreBytes xs → AreBytes ys → AreBytes (xor_bytes xs ys)
unfolding xor_bytes
xor_bytes-AreBytes [] ys p q = tt
xor_bytes-AreBytes (x ∷ xs) [] p q = tt
xor_bytes-AreBytes (x ∷ xs) (y ∷ ys) p q =
    (bit_xor-lt x y p.0 q.0, xor_bytes-AreBytes xs ys p.1 q.1)
