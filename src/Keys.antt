-- ===== src/Keys.antt =====
-- generic.go, `entrySignature` and `GetKey`: the primary key of an entry.
pub mod Distinct
use go_cache.Prelude.{
  ℕ, ◌+◌, ◌/◌, ◌%◌, Option, none, some, [], ◌∷◌, ◌++◌, Bytes, codes, ltb, if◌then◌else◌,
}
use go_cache.Generic.{Codec, Settings}

-- `0` to `9` and `a` to `f`.
unfoldable pub hex_digit : ℕ → ℕ
hex_digit n = if ltb n 10 then 48 + n else 87 + n

-- `hex.EncodeToString`: two digits for each byte.
unfoldable pub hex_encode : Bytes → Bytes
unfolding hex_digit
hex_encode [] = []
hex_encode (b ∷ bs) = hex_digit (b / 16) ∷ hex_digit (b % 16) ∷ hex_encode bs

unfoldable pub entry_signature : Codec → Bytes → Bytes → Bytes
unfolding hex_encode
entry_signature k message secret = hex_encode (k.hmac secret message)

-- `"%s::%s"`, if the prefix is not nil.
unfoldable pub get_key : {Pool : Type 0} → Codec → Settings Pool → Bytes → Bytes
unfolding entry_signature
get_key k c entry_data = elim (c.key_prefix) [
  | none ↦ entry_signature k entry_data c.shared_secret
  | some prefix ↦ prefix ++ codes "::" ++ entry_signature k entry_data c.shared_secret
]
