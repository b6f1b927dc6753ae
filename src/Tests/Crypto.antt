-- ===== src/Tests/Crypto.antt =====
-- pkcs.go and the keys, ciphers and entries of generic.go, tried.
use go_cache.Prelude.{
  inl, bytes_eq, ◌%◌, ◌<◌, ◌≤◌, ◌≡◌, ◌≢◌, refl, none, [], ◌∷◌, length, take, Bytes, codes, arith,
}
use go_cache.Prelude.Int.{ℤ, pos}
use go_cache.Clock.{to_unix, whole_seconds}
use go_cache.Word.{add64, sub64, quot64}
use go_cache.InMemory
use go_cache.Lru.{run}
use go_cache.Outcome.{returns, panics, ok, err}
use go_cache.Padding.{err_padding_size}
use go_cache.Secret.{key_and_iv, secret_too_short}
use go_cache.Secret.Alias.{key_and_iv_lem}
use go_cache.Cipher.{AreBytes, encrypt_byte_array, decrypt_byte_array}
use go_cache.Cipher.RoundTrip.{decrypt_byte_array-encrypt_byte_array}
use go_cache.Value.{expired, Value, string, entry, nil, entry_type, pointer}
use go_cache.InMemory.{got}
use go_cache.Lru.Recent.{recent}
use go_cache.Store.Local.{World, local, local-KeepsData}
use go_cache.Store.Existing.{add_existing_entry_lem}
use go_cache.Generic.{alone, encrypt_entry, decrypt_entry}
use go_cache.Generic.Crypt.{decrypt_entry-encrypt_entry_empty}
use go_cache.Generic.RoundTrip.{
  KeepsData, IsCodable, set-encrypts, get-set_encrypted, get-add_panics,
}
use go_cache.Generic.Writes
use go_cache.Generic.Reads
use go_cache.Error.{cannot_unpad}
use go_cache.Keys.{get_key}
use go_cache.Keys.Distinct.{get_key-injective}
use go_cache.Tests.Data.{
  plain_cipher, codec, key, secret, at, at-Reads, empty, world, store_settings,
}

key_and_iv_lem_example :
    (16 ≤ length secret
      → key_and_iv secret ≡ ok (codes "m-eb-tsum-terces", codes "m-eb-tsum-terces"))
    × (length secret < 16 → key_and_iv secret ≡ err secret_too_short)
key_and_iv_lem_example = key_and_iv_lem secret

decrypt_byte_array-encrypt_byte_array_example :
    (out : Bytes) × (encrypt_byte_array plain_cipher (codes "sixteen bytes...") secret
      ≡ returns (ok out))
    × (length out ≡ 16)
    × (decrypt_byte_array plain_cipher out secret ≡ returns (ok (codes "sixteen bytes...")))
decrypt_byte_array-encrypt_byte_array_example =
    decrypt_byte_array-encrypt_byte_array plain_cipher secret (codes "sixteen bytes...")
      (omega arith) (omega arith) (omega arith) refl

decrypt_entry-encrypt_entry_empty_example :
    (out : Bytes) × (encrypt_entry codec store_settings [] ≡ returns (ok out))
    × (decrypt_entry codec store_settings out ≡ returns (err (cannot_unpad err_padding_size)))
decrypt_entry-encrypt_entry_empty_example =
    decrypt_entry-encrypt_entry_empty codec store_settings refl (omega arith) (omega arith)

tagged_bytes : AreBytes (7 ∷ codes "hello")
tagged_bytes = omega arith

tagged-nonempty : 7 ∷ codes "hello" ≢ []
tagged-nonempty e = ground arith

abbrev text_codable : IsCodable codec (string (codes "hello"))
text_codable = record {
  code = 7 ∷ codes "hello";
  encoded = refl;
  decodes = refl;
  bytes = tagged_bytes;
  not_empty = tagged-nonempty;
}

stored_data : KeepsData (local recent (pos 0)) tt key (pos 5000000000) world
stored_data =
    local-KeepsData recent (pos 0) key 5000000000 1000 world at-Reads (omega arith) (omega arith)
      (omega arith)

get-set_encrypted_example :
    (w1 w2 : World recent) × (a' x' : ℤ) × (Writes.set
        (local recent (pos 0))
        codec
        (alone store_settings)
        key
        (entry (string (codes "hello")) (pos 1000) (pos 1005))
        (pos 5000000000)
        (at 1000)
        world
      ≡ (returns none, w1))
    × (Reads.get codec (local recent (pos 0)) (alone store_settings) key (pointer entry_type) nil w1
        ≡ (returns (got (entry (string (codes "hello")) a' x')), w2))
get-set_encrypted_example =
    get-set_encrypted codec (local recent (pos 0)) (alone store_settings) tt refl refl refl
      (omega arith) (omega arith) key (string (codes "hello")) nil (pos 1000) (pos 1005)
      (pos 5000000000) (at 1000) world text_codable stored_data

set-encrypts_example :
    (out : Bytes) × (Writes.set
        (local recent (pos 0))
        codec
        (alone store_settings)
        key
        (entry (string (codes "hello")) (pos 1000) (pos 1005))
        (pos 5000000000)
        (at 1000)
        world
      ≡ (local recent (pos 0)).set tt key
          (entry (Value.bytes out) (pos 1000) (pos 1005))
          (pos 5000000000)
          world)
    × (length out % 16 ≡ 0)
    × (decrypt_entry codec store_settings out ≡ returns (ok (7 ∷ codes "hello")))
set-encrypts_example =
    set-encrypts codec (local recent (pos 0)) (alone store_settings) tt refl refl refl (omega arith)
      (omega arith) key (string (codes "hello")) (pos 1000) (pos 1005) (pos 5000000000) 5000000000
      1000 (at 1000) world text_codable (inl (refl, omega arith)) at-Reads (omega arith)

same_key :
    get_key codec store_settings (codes "one-a") ≡ get_key codec store_settings (codes "one-b")
unfolding get_key
same_key = refl

get_key-injective_example : take 3 (codes "one-a") ≡ take 3 (codes "one-b")
get_key-injective_example =
    get_key-injective codec store_settings (codes "one-a") (codes "one-b") (omega arith)
      (omega arith) same_key

-- `Add` of an entry with text under encryption: the next `Get` panics.
get-add_panics_example :
    let w1 = record world {
      lru = record empty {
        items = (key, entry (string (codes "hello")) (pos 1000) (pos 1005)) ∷ [];
      };
    } in
    (Writes.add
        (local recent (pos 0))
        (alone store_settings)
        key
        (entry (string (codes "hello")) (pos 0) (pos 0))
        (pos 5000000000)
        world
      ≡ (returns none, w1))
    × (Reads.get codec (local recent (pos 0)) (alone store_settings) key (pointer entry_type) nil w1
        ≡ (panics, w1))
unfolding InMemory.add InMemory.get run InMemory.new_entry InMemory.expiry to_unix sub64 add64
    whole_seconds quot64 bytes_eq expired
get-add_panics_example =
    get-add_panics codec (local recent (pos 0)) (alone store_settings) tt refl refl key
      (string (codes "hello")) nil (pos 0) (pos 0) (pos 1000) (pos 1005) (pos 5000000000) world _ _
      refl tt refl refl

-- An entry that expires at this very second gets the default of the store: five seconds.
add_existing_entry_lem_example :
    Writes.add_existing_entry
      (local recent (pos 5000000000))
      (alone store_settings)
      key
      (record { payload = string (codes "hello"); time_added = pos 0; expires_at = pos 0 })
      (pos 1000)
      (at 1000)
      world
    ≡ (
      returns none,
      record world {
        lru = recent.add empty key (entry (string (codes "hello")) (pos 1000) (pos 1005));
      },
    )
add_existing_entry_lem_example =
    add_existing_entry_lem recent 5000000000 (alone store_settings) key
      (record { payload = string (codes "hello"); time_added = pos 0; expires_at = pos 0 }) 1000
      1000 (at 1000) world refl at-Reads at-Reads (omega arith) (omega arith) (omega arith)
      (omega arith)
