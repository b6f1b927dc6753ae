-- ===== src/Value.antt =====
-- The values that a cache holds: Go's `interface{}`, with the types that the program tells apart,
-- and the entry that it wraps around them (generic.go, galapagos_gin/cache/cache.go).
use go_cache.Prelude.{Option, none, some, List, Bool, false, Bytes, if◌then◌else◌}
use go_cache.Prelude.Int.{ℤ, pos, eqb_ℤ}
use go_cache.Clock.{Instant, unix, before}

-- `http.Header`: the values of each key.
abbrev pub Header : Type 0
Header = List (Bytes × List Bytes)

pub record ResponseCache : Type 0 where
  pub status : ℤ
  pub header : Header
  pub body : Bytes

-- `entry` is a `GenericCacheEntry`, with its `Data`, `TimeAdded` and `ExpiresAt`. `other` is a
-- value of a type that has the given name.
pub data Value : Type 0 where
  nil : Value
  string : Bytes → Value
  int : ℤ → Value
  bytes : Bytes → Value
  response : ResponseCache → Value
  entry : Value → ℤ → ℤ → Value
  other : Bytes → Bytes → Value

pub record GenericCacheEntry : Type 0 where
  pub payload : Value
  pub time_added : ℤ
  pub expires_at : ℤ

-- A `GenericCacheEntry` as an `interface{}`.
abbrev pub of_entry : GenericCacheEntry → Value
of_entry e = entry e.payload e.time_added e.expires_at

-- What `%T` prints.
pub data GoType : Type 0 where
  nil_type string_type int_type bytes_type response_type entry_type : GoType
  other_type : Bytes → GoType

abbrev pub type_of : Value → GoType
type_of nil = nil_type
type_of (string s) = string_type
type_of (int n) = int_type
type_of (bytes b) = bytes_type
type_of (response r) = response_type
type_of (entry d a x) = entry_type
type_of (other name content) = other_type name

-- What a caller hands to `Get` for the result: a pointer to a variable of a type, or a plain value.
pub data Target : Type 0 where
  pointer plain : GoType → Target

-- `Expired`.
unfoldable pub expired : GenericCacheEntry → Instant → Bool
unfolding unix before
expired e now = if eqb_ℤ e.expires_at (pos 0) then false else before (unix e.expires_at) now

-- The values that a store puts into its LRU cache.
abbrev pub IsEntry : Value → Type 0
IsEntry (entry d a x) = Unit {0}
IsEntry _ = ⊥

abbrev pub IfAny : (Value → Type 0) → Option Value → Type 0
IfAny P none = Unit {0}
IfAny P (some v) = P v

abbrev pub IsEntryIfAny : Option Value → Type 0
IsEntryIfAny = IfAny IsEntry
