-- ===== src/Clock.antt =====
-- What the program uses of Go's `time`: instants, `time.Unix`, `Unix`, `Before`, durations in
-- nanoseconds. An instant counts seconds from year 1 in an `int64`, as the package does, so that
-- `time.Unix` wraps where the package's does.
pub mod Exact
use go_cache.Prelude.{ℕ, ◌<◌, ◌≡◌, ◌+◌, Bool, ◌&&◌, ◌||◌, ltb}
use go_cache.Prelude.Int.{ℤ, pos, pos_part, neg_part, ltb_ℤ, eqb_ℤ, ◌≤ℤ◌}
use go_cache.Word.{add64, sub64, quot64}

pub record Instant : Type 0 where
  pub sec : ℤ
  pub nsec : ℕ

-- Seconds from year 1 to 1970.
abbrev pub unix_to_internal : ℕ
unix_to_internal = 62135596800

-- `time.Second`, in nanoseconds.
abbrev pub second : ℕ
second = 1000000000

-- `time.Unix(sec, 0)`.
unfoldable pub unix : ℤ → Instant
unix sec = record { sec = add64 sec (pos unix_to_internal); nsec = 0 }

-- `t.Unix()`.
unfoldable pub to_unix : Instant → ℤ
to_unix t = sub64 t.sec (pos unix_to_internal)

-- `t.Before(u)`.
unfoldable pub before : Instant → Instant → Bool
before t u = ltb_ℤ t.sec u.sec || (eqb_ℤ t.sec u.sec && ltb t.nsec u.nsec)

-- `int64(d / time.Second)`.
unfoldable pub whole_seconds : ℤ → ℤ
whole_seconds d = quot64 d second

-- A clock that reads `n` whole seconds since 1970, before the year 10^11.
pub record Reads (t : Instant) (n : ℕ) : Type 0 where
  pub reads : t.sec ≡ pos (n + unix_to_internal)
  pub sane : n < 4611686018427387904
