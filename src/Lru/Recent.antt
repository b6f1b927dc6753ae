-- ===== src/Lru/Recent.antt =====
-- A cache that meets the library's documentation: the most recently written keys, up to a size.
use go_cache.Prelude.{
  ℕ, zero, suc, ◌≡◌, ◌≢◌, refl, ap, ◌⊎◌, inl, inr, Bool-cases, Option, none, some, List, [], ◌∷◌,
  map, length, take, Bytes, bytes_eq, bytes_eq_iff, bytes_eq_refl, if◌then◌else◌, arith,
}
use go_cache.Prelude.Int.{ℤ, pos, negsuc, ◌≤ℤ◌}
use go_cache.Value.{Value}
use go_cache.Lru.{Arc, Holds}

abbrev pub Items : Type 0
Items = List (Bytes × Value)

abbrev pub lookup : Items → Bytes → Option Value
lookup [] k = none
lookup ((j, v) ∷ m) k = if bytes_eq j k then some v else lookup m k

abbrev pub without : Items → Bytes → Items
without [] k = []
without ((j, v) ∷ m) k = if bytes_eq j k then without m k else (j, v) ∷ without m k

abbrev pub keys : Items → List Bytes
keys = map (λ e. e.0)

pub record Cache : Type 0 where
  pub room : ℕ
  pub items : Items

pub lookup-without_self : (m : Items) (k : Bytes) → lookup (without m k) k ≡ none
lookup-without_self [] k = refl
lookup-without_self ((j, v) ∷ m) k = ground (arith, lookup-without_self m k)

pub lookup-without_ne : (m : Items) (k j : Bytes) → k ≢ j → lookup (without m k) j ≡ lookup m j
lookup-without_ne [] k j h = refl
lookup-without_ne ((i, v) ∷ m) k j h =
    ground (arith, bytes_eq_iff i k, bytes_eq_iff i j, lookup-without_ne m k j h)

lookup-take :
    (n : ℕ) (m : Items) (k : Bytes)
    → (lookup (take n m) k ≡ lookup m k) ⊎ (lookup (take n m) k ≡ none)
lookup-take zero m k = inr refl
lookup-take (suc n) [] k = inl refl
lookup-take (suc n) ((j, v) ∷ m) k = ground (arith, lookup-take n m k)

pub keys-lookup : (m : Items) (k : Bytes) → Holds (keys m) k → lookup m k ≢ none
keys-lookup [] k h = absurd h
keys-lookup ((j, v) ∷ m) k (inl e) = ground (arith, bytes_eq_iff j k)
keys-lookup ((j, v) ∷ m) k (inr h) = ground (arith, keys-lookup m k h)

pub lookup-keys : (m : Items) (k : Bytes) → lookup m k ≢ none → Holds (keys m) k
lookup-keys [] k h = h refl
lookup-keys ((j, v) ∷ m) k h = elim (Bool-cases (bytes_eq j k)) [
  | inl e ↦ inl ((bytes_eq_iff j k).0 e)
  | inr e ↦ inr (lookup-keys m k (λ q. h (rw e q)))
]

abbrev pub add : Cache → Bytes → Value → Cache
add c k v = record c { items = (k, v) ∷ take c.room (without c.items k) }

abbrev pub new_cache : ℤ → Option Cache
new_cache (pos zero) = none
new_cache (pos (suc n)) = some (record { room = n; items = [] })
new_cache (negsuc n) = none

pub new_cache-positive : (n : ℤ) → pos 1 ≤ℤ n → (c : Cache) × (new_cache n ≡ some c)
new_cache-positive (pos zero) h = absurd (omega arith)
new_cache-positive (pos (suc n)) h = (record { room = n; items = [] }, refl)
new_cache-positive (negsuc n) h = absurd (omega arith)

pub new_cache-refused : (n : ℤ) → n ≤ℤ pos 0 → new_cache n ≡ none
new_cache-refused (pos zero) h = refl
new_cache-refused (pos (suc n)) h = absurd (omega arith)
new_cache-refused (negsuc n) h = refl

pub lookup-new_cache :
    (n : ℤ) (c : Cache) (k : Bytes) → new_cache n ≡ some c → lookup c.items k ≡ none
lookup-new_cache n c k h = ground arith

pub lookup-add_self : (c : Cache) (k : Bytes) (v : Value) → lookup (add c k v).items k ≡ some v
lookup-add_self c k v = ground (arith, bytes_eq_refl k)

pub lookup-add_ne :
    (c : Cache) (k j : Bytes) (v : Value)
    → k ≢ j
    → (lookup (add c k v).items j ≡ lookup c.items j) ⊎ (lookup (add c k v).items j ≡ none)
lookup-add_ne c k j v h = ground (
  arith,
  bytes_eq_iff k j,
  lookup-take c.room (without c.items k) j,
  lookup-without_ne c.items k j h,
)

pub length-keys : (m : Items) → length m ≡ length (keys m)
length-keys [] = refl
length-keys (e ∷ m) = ap suc (length-keys m)

abbrev pub recent : Arc
recent = record {
  Lru = Cache;
  new_arc = new_cache;
  get = λ c k. (lookup c.items k, c);
  add = add;
  remove = λ c k. record c { items = without c.items k };
  keys = λ c. keys c.items;
  len = λ c. length c.items;
  purge = λ c. record c { items = [] };
  peek = λ c k. lookup c.items k;
  new_arc-positive = new_cache-positive;
  new_arc-refused = new_cache-refused;
  peek-new_arc = lookup-new_cache;
  get-peek = λ c k. refl;
  peek-get = λ c k j. refl;
  peek-add_self = lookup-add_self;
  peek-add_ne = lookup-add_ne;
  peek-remove_self = λ c k. lookup-without_self c.items k;
  peek-remove_ne = λ c k j h. lookup-without_ne c.items k j h;
  peek-purge = λ c k. refl;
  keys-peek = λ c k. (keys-lookup c.items k, lookup-keys c.items k);
  len-keys = λ c. length-keys c.items;
}

-- An empty cache with room for a number of keys.
abbrev pub room_for : ℕ → Cache
room_for n = record { room = n; items = [] }
