-- ===== src/Clock/Exact.antt =====
-- Where the clock is sane nothing wraps.
use go_cache.Prelude.{ℕ, ◌<◌, ◌≡◌, ltb, ◌&&◌, ◌==◌, ◌||◌, arith}
use go_cache.Prelude.Int.{pos}
use go_cache.Word.{add64, sub64}
use go_cache.Clock.{Instant, unix, to_unix, before, Reads}

pub to_unix-Reads : (t : Instant) (n : ℕ) → Reads t n → to_unix t ≡ pos n
unfolding to_unix sub64
to_unix-Reads t n r = rw r.reads (ground arith)

-- `time.Unix(e, 0)` lies before a sane clock exactly if `e` is less than what the clock reads, or
-- is equal to it and the clock has passed the full second.
pub before-unix :
    (e n : ℕ) (t : Instant)
    → Reads t n
    → e < 4611686018427387904
    → before (unix (pos e)) t ≡ (ltb e n || ((e == n) && ltb 0 t.nsec))
unfolding before unix add64
before-unix e n t r h = rw r.reads (ground arith)
