-- ===== src/Lru.antt =====
-- The LRU library that inmemory.go builds on, and the code between its calls. The library
-- (hashicorp/golang-lru, `ARCCache`) is a parameter: its state, its operations, and what their
-- documentation says. Each of its calls takes a lock of its own, so code that uses it is a tree of
-- atomic calls, which runs alone or interleaved with other code.
pub mod Recent
pub mod Run
pub mod Threads
pub mod Turns
use go_cache.Prelude.{ℕ, ◌≤◌, ◌≡◌, ◌≢◌, ◌⊎◌, ◌↔◌, Option, none, some, List, Bytes, length}
use go_cache.Prelude.Int.{ℤ, pos, ◌<ℤ◌, ◌≤ℤ◌}
use go_cache.Value.{Value}
use go_cache.Outcome.{Outcome, returns, panics}

abbrev pub Holds : List Bytes → Bytes → Type 0
Holds List.[] key = ⊥
Holds (List.◌∷◌ k ks) key = (k ≡ key) ⊎ Holds ks key

-- `peek` is what is cached under a key. `Get` and `Keys` change nothing that can be read, `Add`
-- caches its value and may evict other keys, `Remove` and `Purge` drop one key and all of them.
pub record Arc : Type 1 where
  pub Lru : Type 0
  pub new_arc : ℤ → Option Lru
  pub get : Lru → Bytes → Option Value × Lru
  pub add : Lru → Bytes → Value → Lru
  pub remove : Lru → Bytes → Lru
  pub keys : Lru → List Bytes
  pub len : Lru → ℕ
  pub purge : Lru → Lru
  pub peek : Lru → Bytes → Option Value
  pub new_arc-positive : (n : ℤ) → pos 1 ≤ℤ n → (l : Lru) × (new_arc n ≡ some l)
  pub new_arc-refused : (n : ℤ) → n ≤ℤ pos 0 → new_arc n ≡ none
  pub peek-new_arc : (n : ℤ) (l : Lru) (k : Bytes) → new_arc n ≡ some l → peek l k ≡ none
  pub get-peek : (l : Lru) (k : Bytes) → (get l k).0 ≡ peek l k
  pub peek-get : (l : Lru) (k j : Bytes) → peek (get l k).1 j ≡ peek l j
  pub peek-add_self : (l : Lru) (k : Bytes) (v : Value) → peek (add l k v) k ≡ some v
  pub peek-add_ne :
      (l : Lru) (k j : Bytes) (v : Value)
      → k ≢ j
      → (peek (add l k v) j ≡ peek l j) ⊎ (peek (add l k v) j ≡ none)
  pub peek-remove_self : (l : Lru) (k : Bytes) → peek (remove l k) k ≡ none
  pub peek-remove_ne : (l : Lru) (k j : Bytes) → k ≢ j → peek (remove l k) j ≡ peek l j
  pub peek-purge : (l : Lru) (k : Bytes) → peek (purge l) k ≡ none
  pub keys-peek : (l : Lru) (k : Bytes) → Holds (keys l) k ↔ (peek l k ≢ none)
  pub len-keys : (l : Lru) → len l ≡ length (keys l)

-- Code between its calls of the library.
pub data Prog (A : Type 0) : Type 0 where
  ret : A → Prog A
  panic : Prog A
  lru_get : Bytes → (Option Value → Prog A) → Prog A
  lru_add : Bytes → Value → Prog A → Prog A
  lru_remove : Bytes → Prog A → Prog A
  lru_keys : (List Bytes → Prog A) → Prog A
  lru_len : (ℕ → Prog A) → Prog A
  lru_purge : Prog A → Prog A

infixl 5 ◌>>=◌
abbrev pub ◌>>=◌ : {A B : Type 0} → Prog A → (A → Prog B) → Prog B
ret a >>= f = f a
panic >>= f = panic
lru_get k g >>= f = lru_get k (λ o. g o >>= f)
lru_add k v p >>= f = lru_add k v (p >>= f)
lru_remove k p >>= f = lru_remove k (p >>= f)
lru_keys g >>= f = lru_keys (λ ks. g ks >>= f)
lru_len g >>= f = lru_len (λ n. g n >>= f)
lru_purge p >>= f = lru_purge (p >>= f)

module _ (arc : Arc) where
  open arc use {Lru, get, add, remove, keys, len, purge}

  -- The code runs alone to its end. A panic leaves the cache as it is.
  unfoldable pub run : {A : Type 0} → Prog A → Lru → Outcome A × Lru
  run (ret a) l = (returns a, l)
  run panic l = (panics, l)
  run (lru_get k f) l = run (f (get l k).0) (get l k).1
  run (lru_add k v p) l = run p (add l k v)
  run (lru_remove k p) l = run p (remove l k)
  run (lru_keys f) l = run (f (keys l)) l
  run (lru_len f) l = run (f (len l)) l
  run (lru_purge p) l = run p (purge l)

  -- One atomic call of the code. Code at its end makes none.
  unfoldable pub step : {A : Type 0} → Prog A → Lru → Prog A × Lru
  step (ret a) l = (ret a, l)
  step panic l = (panic, l)
  step (lru_get k f) l = (f (get l k).0, (get l k).1)
  step (lru_add k v p) l = (p, add l k v)
  step (lru_remove k p) l = (p, remove l k)
  step (lru_keys f) l = (f (keys l), l)
  step (lru_len f) l = (f (len l), l)
  step (lru_purge p) l = (p, purge l)
