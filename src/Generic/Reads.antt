-- ===== src/Generic/Reads.antt =====
-- generic.go: `Get` and `Exists`.
use go_cache.Prelude.{
  Option, none, some, List, [], ◌∷◌, Bool, true, false, ◌||◌, Bytes, codes, bytes_eq, if◌then◌else◌,
}
use go_cache.Prelude.Int.{pos}
use go_cache.Outcome.{Result, ok, err}
use go_cache.Error.{Error, no_cache, cache_miss, not_support, cannot_decode, is_cache_miss}
use go_cache.Value.{
  Value, nil, bytes, entry, GenericCacheEntry, of_entry, GoType, string_type, int_type,
  response_type, entry_type, other_type, Target, pointer, plain,
}
use go_cache.Store.{CacheStore, M, ◌>>=◌, pure, throw, lift, asserting}
use go_cache.InMemory.{Got, got, failed}
use go_cache.Generic.{
  Codec, Settings, GenericCache, alone, with_read_cache, settings, decrypt_entry,
}

-- The names of the number types in the `switch` of `Get`, beside `int`.
abbrev number_types : List Bytes
number_types =
    codes "int8"
    ∷ codes "int16"
    ∷ codes "int32"
    ∷ codes "int64"
    ∷ codes "uint"
    ∷ codes "uint8"
    ∷ codes "uint16"
    ∷ codes "uint32"
    ∷ codes "uint64"
    ∷ []

one_of : List Bytes → Bytes → Bool
unfolding bytes_eq
one_of [] name = false
one_of (n ∷ ns) name = bytes_eq n name || one_of ns name

is_number : GoType → Bool
unfolding one_of
is_number int_type = true
is_number (other_type name) = one_of number_types name
is_number _ = false

is_float64 : GoType → Bool
is_float64 (other_type name) = bytes_eq name (codes "float64")
is_float64 _ = false

-- The cases of the `switch` on the type of `value`: how the store is asked.
pub data Request : Type 0 where
  -- The store writes through `value`.
  direct : Request
  -- The store writes an entry through `value`, which may have to be decrypted.
  an_entry : Request
  -- The store writes into the method's own variable.
  own_variable : Request
  unsupported : Request

unfoldable pub request : Target → Request
unfolding is_number is_float64
request (pointer response_type) = direct
request (pointer entry_type) = an_entry
request (pointer string_type) = direct
request (pointer t) = if is_number t || is_float64 t then direct else unsupported
request (plain t) = if is_number t then own_variable else unsupported

-- A miss is told by its text, and returned as the one error value of a miss.
abbrev pub missed : Got → Got
missed g = elim (g.error) [
  | none ↦ g
  | some e ↦ record g { error = some (if is_cache_miss e then cache_miss else e) }
]

-- What the variable behind the pointer holds afterwards.
abbrev pub pointee : Value → Got → Value
pointee initial g = elim (g.written) [ none ↦ initial | some v ↦ v ]

-- `decoder.Decode(&entry.Data)`.
abbrev pub decoded : GenericCacheEntry → Option Value → Got
decoded e none = record { written = some (of_entry e); error = some cannot_decode }
decoded e (some v) = got (of_entry (record e { payload = v }))

-- What `Exists` returns.
pub record Found : Type 0 where
  pub found : Bool
  pub value : Value
  pub error : Option Error

-- `var entry GenericCacheEntry`.
abbrev pub zero_entry : Value
zero_entry = entry nil (pos 0) (pos 0)

abbrev pub found_of : Got → Found
found_of g = record {
  found = elim (g.error) [ none ↦ true | some _ ↦ false ];
  value = pointee zero_entry g;
  error = g.error;
}

module _ (k : Codec) (s : CacheStore) where
  open s use {World, Pool}

  abbrev pub opened : GenericCacheEntry → Result Error Bytes → Got
  opened e (err x) = record { written = some (of_entry e); error = some x }
  opened e (ok b) = decoded e (k.gob_decode b)

  -- `entry.Data.([]byte)`, decrypted and decoded.
  abbrev pub open_payload : Settings Pool → GenericCacheEntry → Value → M World Got
  open_payload c e (bytes b) = do unsealed ← lift (decrypt_entry k c b); pure (opened e unsealed)
  open_payload c e _ = throw

  abbrev pub open_entry : Settings Pool → Value → M World Got
  open_entry c (entry d a x) =
      open_payload c (record { payload = d; time_added = a; expires_at = x }) d
  open_entry c _ = throw

  -- After the store's `Get` into an entry.
  unfoldable pub read_entry : Settings Pool → Value → Got → M World Got
  read_entry c initial g = elim (g.error) [
    | some e ↦ pure (missed g)
    | none ↦ if c.encrypt_data then open_entry c (pointee initial g) else pure g
  ]

  -- `initial` is what the pointer points to before the call.
  unfoldable pub get : GenericCache Pool → Bytes → Target → Value → M World Got
  unfolding request read_entry
  get c key value initial = elim ((settings c).cache) [
    | none ↦ pure (failed no_cache)
    | some p ↦ elim (request value) [
      | direct ↦ asserting (s.is_store p) (do g ← s.get p key value; pure (missed g))
      | an_entry ↦
          asserting (s.is_store p) (do g ← s.get p key value; read_entry (settings c) initial g)
      | own_variable ↦ asserting (s.is_store p) (do
        g ← s.get p key (pointer (other_type (codes "interface {}")))
        pure (record { written = none; error = (missed g).error }))
      | unsupported ↦ pure (failed not_support)
    ]
  ]

  unfoldable pub exists : GenericCache Pool → Bytes → M World Found
  unfolding get
  exists (with_read_cache c r) key = exists r key
  exists (alone c) key = elim (c.cache) [
    | none ↦ pure (record { found = false; value = zero_entry; error = some no_cache })
    | some p ↦ do g ← get (alone c) key (pointer entry_type) zero_entry; pure (found_of g)
  ]
