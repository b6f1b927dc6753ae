-- ===== src/InMemory.antt =====
-- inmemory.go: the store with expiry over the LRU library. A method is code between the library's
-- calls; what it reads of the clock is an argument. `time.Now` is read once by each call of
-- `Expired` and `doAddSet`; the sweep of the janitor reads it for each key.
pub mod Entries
pub mod Calls
pub mod Expiry
pub mod Counters
pub mod Races
pub mod Sweep
pub mod Reference
pub mod Ends
pub mod Forever
pub mod Typed
use go_cache.Prelude.{
  ℕ, zero, suc, ◌+◌, Option, none, some, List, [], ◌∷◌, Bool, Bytes, if◌then◌else◌, ltb,
}
use go_cache.Prelude.Int.{ℤ, pos, negsuc, ltb_ℤ, eqb_ℤ}
use go_cache.Word.{to_uint64, to_int64, add64, sub64}
use go_cache.Clock.{Instant, to_unix, whole_seconds}
use go_cache.Error.{Error, cache_miss, not_stored, not_support}
use go_cache.Value.{
  Value, nil, string, int, bytes, response, entry, other, GenericCacheEntry, of_entry, GoType,
  string_type, int_type, response_type, entry_type, type_of, Target, pointer, plain, expired,
}
use go_cache.Lru.{
  Prog, ret, panic, lru_get, lru_add, lru_remove, lru_keys, lru_len, lru_purge, ◌>>=◌,
}

-- `persistence.FOREVER`.
abbrev pub forever : ℤ
forever = negsuc 0

-- What a call of `Get` leaves behind: what it wrote through the pointer, if it did, and its error.
pub record Got : Type 0 where
  pub written : Option Value
  pub error : Option Error

abbrev pub got : Value → Got
got v = record { written = some v; error = none }

abbrev pub failed : Error → Got
failed e = record { written = none; error = some e }

-- `val.(GenericCacheEntry)`.
abbrev pub assert_entry : Value → Prog GenericCacheEntry
assert_entry (entry d a x) = ret (record { payload = d; time_added = a; expires_at = x })
assert_entry _ = panic

-- `entry.Data.(string)` and its like: the dynamic type has to be the one asserted.
abbrev pub assert_string : Value → Prog Got
assert_string (string s) = ret (got (string s))
assert_string _ = panic

abbrev pub assert_int : Value → Prog Got
assert_int (int n) = ret (got (int n))
assert_int _ = panic

abbrev pub assert_response : Value → Prog Got
assert_response (response r) = ret (got (response r))
assert_response _ = panic

-- The `switch` of `Get` on the type of the pointer.
abbrev pub write_out : Target → GenericCacheEntry → Prog Got
write_out (pointer string_type) e = assert_string e.payload
write_out (pointer int_type) e = assert_int e.payload
write_out (pointer entry_type) e = ret (got (of_entry e))
write_out (pointer response_type) e = assert_response e.payload
write_out _ e = ret (failed not_support)

unfoldable pub get_found : Bytes → Target → Instant → Option Value → Prog Got
get_found key value now none = ret (failed cache_miss)
get_found key value now (some val) = do
  e ← assert_entry val
  if expired e now then lru_remove key (ret (failed cache_miss)) else write_out value e

unfoldable pub get : Bytes → Target → Instant → Prog Got
unfolding get_found
get key value now = lru_get key (get_found key value now)

-- The expiry that `doAddSet` computes, from the store's `DefaultExp`.
unfoldable pub expiry : ℤ → ℤ → Instant → ℤ
expiry default_exp exp now =
    if eqb_ℤ exp forever
    then pos 0
    else if eqb_ℤ exp (pos 0)
    then add64 (to_unix now) (whole_seconds default_exp)
    else add64 (to_unix now) (whole_seconds exp)

-- An entry is unwrapped: its own times are dropped.
abbrev pub unwrap : Value → Value
unwrap (entry d a x) = d
unwrap v = v

unfoldable pub new_entry : ℤ → Value → ℤ → Instant → GenericCacheEntry
new_entry default_exp value exp now = record {
  payload = unwrap value;
  time_added = to_unix now;
  expires_at = expiry default_exp exp now;
}

-- `NewGenericCacheEntry`, from the store's `DefaultExp`; its error is always nil.
unfoldable pub new_generic_cache_entry : ℤ → Value → ℤ → Instant → GenericCacheEntry
new_generic_cache_entry default_exp payload exp now = record {
  payload = payload;
  time_added = to_unix now;
  expires_at = add64 (to_unix now) (whole_seconds (if eqb_ℤ exp (pos 0) then default_exp else exp));
}

-- `if _, ok := c.lru.Get(key); ok { … } …`
abbrev pub if_found : {A : Type 0} → Prog A → Prog A → Option Value → Prog A
if_found p q (some _) = p
if_found p q none = q

-- The methods of the store. `doAddSet` never fails.
module _ (default_exp : ℤ) where
  unfoldable pub do_add_set : Bytes → Value → ℤ → Instant → Prog (Option Error)
  do_add_set key value exp now =
      lru_add key (of_entry (new_entry default_exp value exp now)) (ret none)

  unfoldable pub set : Bytes → Value → ℤ → Instant → Prog (Option Error)
  unfolding do_add_set
  set key value exp now = do_add_set key value exp now

  unfoldable pub add : Bytes → Value → ℤ → Instant → Prog (Option Error)
  unfolding do_add_set
  add key value exp now =
      lru_get key (if_found (ret (some not_stored)) (do_add_set key value exp now))

  unfoldable pub replace : Bytes → Value → ℤ → Instant → Prog (Option Error)
  unfolding do_add_set
  replace key value exp now =
      lru_get key (if_found (do_add_set key value exp now) (ret (some not_stored)))

unfoldable pub update : Bytes → GenericCacheEntry → Prog (Option Error)
update key e = lru_get key (if_found (lru_add key (of_entry e) (ret none)) (ret (some not_stored)))

unfoldable pub delete : Bytes → Prog (Option Error)
delete key = lru_get key (if_found (lru_remove key (ret none)) (ret (some cache_miss)))

-- `keys` and `len` of the store, and `Flush`.
unfoldable pub keys : Prog (List Bytes)
keys = lru_keys ret

unfoldable pub len : Prog ℕ
len = lru_len ret

unfoldable pub flush : Prog (Option Error)
flush = lru_purge (ret none)

-- A counter's new value as `uint64`, or an error.
abbrev pub Count : Type 0
Count = ℕ × Option Error

-- `entry.Data.(int) + int(n)`.
abbrev pub incremented : ℤ → ℕ → ℤ
incremented d n = add64 d (to_int64 n)

-- `0` if `int(n) > entry.Data.(int)`, and the difference otherwise.
abbrev pub decremented : ℤ → ℕ → ℤ
decremented d n = if ltb_ℤ d (to_int64 n) then pos 0 else sub64 d (to_int64 n)

-- The `switch` on the type of `Data`, with the new value of an `int`.
unfoldable pub count_to : (ℤ → ℕ → ℤ) → Bytes → ℕ → GenericCacheEntry → Prog Count
count_to op key n e = elim e.payload [
  | int d ↦
      lru_add key (of_entry (record e { payload = int (op d n) })) (ret (to_uint64 (op d n), none))
  | _ ↦ ret (0, some not_support)
]

unfoldable pub count_found : (ℤ → ℕ → ℤ) → Bytes → ℕ → Option Value → Prog Count
unfolding count_to
count_found op key n none = ret (0, some cache_miss)
count_found op key n (some v) = do e ← assert_entry v; count_to op key n e

unfoldable pub count : (ℤ → ℕ → ℤ) → Bytes → ℕ → Prog Count
unfolding count_found
count op key n = lru_get key (count_found op key n)

unfoldable pub increment : Bytes → ℕ → Prog Count
unfolding count
increment = count incremented

unfoldable pub decrement : Bytes → ℕ → Prog Count
unfolding count
decrement = count decremented

-- The loop of `DeleteExpired` over the keys that are left, and its body. `clock i` is what the
-- clock reads when the loop is at its `i`-th key.
unfoldable pub sweep_found : Bytes → Instant → Prog (Unit {0}) → Option Value → Prog (Unit {0})
sweep_found key now next none = next
sweep_found key now next (some v) = do
  e ← assert_entry v
  if expired e now then lru_remove key next else next

unfoldable pub sweep : (ℕ → Instant) → ℕ → List Bytes → Prog (Unit {0})
unfolding sweep_found
sweep clock i [] = ret tt
sweep clock i (key ∷ rest) = lru_get key (sweep_found key (clock i) (sweep clock (suc i) rest))

unfoldable pub delete_expired : (ℕ → Instant) → Prog (Unit {0})
unfolding sweep
delete_expired clock = lru_keys λ ks. sweep clock 0 ks
