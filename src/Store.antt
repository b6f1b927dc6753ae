-- ===== src/Store.antt =====
-- The store interface of the persistence package (`persistence.CacheStore`), which generic.go and
-- galapagos_gin/cache/cache.go call, and the methods that only its `*RedisStore` has. A store is a
-- pool, an opaque handle; what all pools hold is the world, which each call may change.
pub mod Local
pub mod Existing
pub mod Pages
pub mod Refines
use go_cache.Prelude.{ℕ, Bool, Option, Bytes, if◌then◌else◌}
use go_cache.Prelude.Int.{ℤ}
use go_cache.Outcome.{Outcome, returns, panics}
use go_cache.Error.{Error}
use go_cache.Value.{Value, Target}
use go_cache.InMemory.{Got, Count}

-- `is_store` and `is_redis` tell whether the type assertions `.(persistence.CacheStore)` and
-- `.(*persistence.RedisStore)` hold of a pool. The methods are functions of the world, and may
-- panic.
pub record CacheStore : Type 1 where
  pub World : Type 0
  pub Pool : Type 0
  pub is_store : Pool → Bool
  pub is_redis : Pool → Bool
  pub get : Pool → Bytes → Target → World → Outcome Got × World
  pub set : Pool → Bytes → Value → ℤ → World → Outcome (Option Error) × World
  pub add : Pool → Bytes → Value → ℤ → World → Outcome (Option Error) × World
  pub replace : Pool → Bytes → Value → ℤ → World → Outcome (Option Error) × World
  pub delete : Pool → Bytes → World → Outcome (Option Error) × World
  pub increment : Pool → Bytes → ℕ → World → Outcome Count × World
  pub decrement : Pool → Bytes → ℕ → World → Outcome Count × World
  pub flush : Pool → World → Outcome (Option Error) × World
  pub expire_at : Pool → Bytes → ℕ → World → Outcome (Option Error) × World
  pub get_expires_in : Pool → Bytes → World → Outcome (ℤ × Option Error) × World
  pub increment_atomic : Pool → Bytes → ℕ → World → Outcome Count × World
  pub increment_check_set : Pool → Bytes → ℕ → World → Outcome Count × World

-- Code that calls stores: it returns or panics, and leaves a world.
abbrev pub M : Type 0 → Type 0 → Type 0
M W A = W → Outcome A × W

abbrev pub after : {W A B : Type 0} → Outcome A × W → (A → M W B) → Outcome B × W
after (returns a, w) f = f a w
after (panics, w) f = (panics, w)

infixl 5 ◌>>=◌
abbrev pub ◌>>=◌ : {W A B : Type 0} → M W A → (A → M W B) → M W B
◌>>=◌ m f w = after (m w) f

abbrev pub pure : {W A : Type 0} → A → M W A
pure a w = (returns a, w)

abbrev pub throw : {W A : Type 0} → M W A
throw w = (panics, w)

-- An outcome that does not touch the world.
abbrev pub lift : {W A : Type 0} → Outcome A → M W A
lift o w = (o, w)

-- A type assertion.
abbrev pub asserting : {W A : Type 0} → Bool → M W A → M W A
asserting holds m = if holds then m else throw
