-- ===== src/Redis/Times.antt =====
-- The times and addresses that redispool.go computes.
use go_cache.Prelude.{ℕ, ◌≡◌, ◌<◌, Option, Bytes, length, arith}
use go_cache.Prelude.Int.{ℤ, pos, ◌<ℤ◌}
use go_cache.Word.{mul64, to_int64, to_uint64}
use go_cache.Outcome.{ok}
use go_cache.Redis.{
  PoolConfig, init_read_only_redis_cache, of_milliseconds, default_if_not_positive,
}

milliseconds_positive :
    (x : ℤ) (d : ℕ)
    → 0 < d
    → d < 1000
    → x <ℤ pos 9000000000000
    → pos 0 <ℤ of_milliseconds (default_if_not_positive x d)
unfolding mul64 to_int64 to_uint64
milliseconds_positive x d p q h = ground arith

-- The timeouts of the read-only pool are positive, whatever is asked for, as long as it is less
-- than 9 * 10^12 milliseconds; its limits are the ones asked for.
pub init_read_only_redis_cache_times :
    (url_parse : Bytes → Option Bytes) (url : Bytes) (conn_ms read_write_ms minutes most : ℤ)
    {config : PoolConfig}
    → conn_ms <ℤ pos 9000000000000
    → read_write_ms <ℤ pos 9000000000000
    → init_read_only_redis_cache url_parse url conn_ms read_write_ms minutes most ≡ ok config
    → (pos 0 <ℤ config.conn_timeout)
      × (pos 0 <ℤ config.read_write_timeout)
      × (config.max_active ≡ most)
      × (config.max_idle ≡ most)
      × (0 < length config.host)
unfolding init_read_only_redis_cache
init_read_only_redis_cache_times url_parse url conn_ms read_write_ms minutes most p q h =
    ground (arith, milliseconds_positive conn_ms 500, milliseconds_positive read_write_ms 50)
