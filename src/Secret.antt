-- ===== src/Secret.antt =====
-- generic.go, `keyAndIV`: the AES key and the initialisation vector that come from the shared
-- secret. Both are slices of one array, so what the loop writes through `IV` is seen through `key`.
pub mod Alias
use go_cache.Prelude.{
  ℕ, zero, suc, ◌-◌, ◌/◌, none, some, length, take, drop, get_elem?, set, Bytes, ltb, if◌then◌else◌,
}
use go_cache.Outcome.{Result, ok, err}

pub data SecretError : Type 0 where
  secret_too_short : SecretError

-- A slice of the array `tmp`: where it starts, and how many elements it has.
pub record Slice : Type 0 where
  pub offset : ℕ
  pub len : ℕ

-- What is seen through a slice, given what the array holds now.
unfoldable pub read : Bytes → Slice → Bytes
read tmp s = take s.len (drop s.offset tmp)

-- `s[i], s[j] = s[j], s[i]` on an array that starts where the slice does.
unfoldable pub swap : Bytes → ℕ → ℕ → Bytes
swap tmp i j = elim (get_elem? tmp i) [
  | none ↦ tmp
  | some a ↦ elim (get_elem? tmp j) [ none ↦ tmp | some b ↦ set (set tmp i b) j a ]
]

-- `for i := n - 1; i >= 0; i-- { opp := len(IV) - 1 - i; IV[i], IV[opp] = IV[opp], IV[i] }`
unfoldable pub swap_loop : ℕ → ℕ → Bytes → Bytes
unfolding swap
swap_loop zero len tmp = tmp
swap_loop (suc i) len tmp = swap_loop i len (swap tmp i (len - 1 - i))

abbrev pub key_size : ℕ
key_size = 16

unfoldable pub key_and_iv : Bytes → Result SecretError (Bytes × Bytes)
unfolding read swap_loop
key_and_iv secret =
    if ltb (length secret) key_size
    then err secret_too_short
    else (let key : Slice = record { offset = 0; len = key_size } in
        let iv : Slice = record { offset = 0; len = key_size } in
        let tmp = swap_loop (iv.len / 2) iv.len secret in ok (read tmp key, read tmp iv))
