-- ===== src/Secret/Alias.antt =====
-- What `keyAndIV` returns (generic.go).
use go_cache.Prelude.{◌≤◌, ◌<◌, ◌≡◌, ◌∷◌, reverse, length, take, Bytes, arith}
use go_cache.Outcome.{ok, err}
use go_cache.Secret.{secret_too_short, key_and_iv}

-- A secret of 16 bytes or more gives a key and a vector that are the same: the first 16 bytes of
-- the secret, backwards. A shorter secret is refused.
pub key_and_iv_lem :
    (secret : Bytes)
    → (16 ≤ length secret
        → key_and_iv secret ≡ ok (reverse (take 16 secret), reverse (take 16 secret)))
      × (length secret < 16 → key_and_iv secret ≡ err secret_too_short)
unfolding key_and_iv
key_and_iv_lem (a ∷ b ∷ c ∷ d ∷ e ∷ f ∷ g ∷ h ∷ i ∷ j ∷ k ∷ l ∷ m ∷ n ∷ o ∷ p ∷ r) =
    (λ q. ground arith, λ q. absurd (omega arith))
key_and_iv_lem s = (λ q. absurd (omega arith), λ q. ground arith)
