-- ===== src/Redis.antt =====
-- redispool.go: what the connections to Redis do when they are dialled, and which address and
-- times a store gets. The servers, `url.Parse` and the look for a k8s cluster are parameters.
pub mod Dial
pub mod Times
pub mod Stores
use go_cache.Prelude.{
  ℕ, ◌*◌, Option, none, some, List, [], ◌∷◌, ◌++◌, Bool, true, false, not, Bytes, codes, length,
  leb, ltb, ◌==◌, if◌then◌else◌,
}
use go_cache.Prelude.Int.{ℤ, pos, eqb_ℤ, ltb_ℤ}
use go_cache.Word.{mul64}
use go_cache.Clock.{second}
use go_cache.Outcome.{Result, ok, err}

-- The errors of the file.
pub data RedisError : Type 0 where
  refused : Bytes → RedisError
  cannot_parse_url empty_host role_check_failed : RedisError

-- `time.Millisecond`, and the defaults of the file, in milliseconds.
abbrev pub millisecond : ℕ
millisecond = 1000000

abbrev pub def_connection_timeout_milliseconds : ℕ
def_connection_timeout_milliseconds = 500

abbrev pub def_read_write_timeout_milliseconds : ℕ
def_read_write_timeout_milliseconds = 50

pub data Command : Type 0 where
  auth : Bytes → Command
  ping : Command
  select : ℤ → Command

-- What a dial has done, in order.
pub data Event : Type 0 where
  connected : Bytes → Event
  sent : Command → Event
  closed : Event

-- What a dial did, and how it ended: a connection, or an error.
pub record Dialled : Type 0 where
  pub events : List Event
  pub failure : Option RedisError

-- What the servers answer: to the question for the master, to a connection, to a command.
pub record Server : Type 0 where
  pub master_addr : Result RedisError Bytes
  pub dial : Bytes → Option RedisError
  pub reply : Command → Option RedisError

-- `if _, err := c.Do(cmd); err != nil { c.Close(); return nil, err }`, for each command in turn.
unfoldable pub commands : Server → List Command → Dialled
commands s [] = record { events = []; failure = none }
commands s (c ∷ cs) =
    let rest = commands s cs in
    elim (s.reply c) [
      | some e ↦ record { events = sent c ∷ closed ∷ []; failure = some e }
      | none ↦ record rest { events = sent c ∷ rest.events }
    ]

unfoldable pub connect : Server → Bytes → List Command → Dialled
unfolding commands
connect s addr cs = elim (s.dial addr) [
  | some e ↦ record { events = []; failure = some e }
  | none ↦ let r = commands s cs in record r { events = connected addr ∷ r.events }
]

-- `SELECT`, unless it is database 0.
abbrev pub selecting : ℤ → List Command
selecting db = if eqb_ℤ db (pos 0) then [] else select db ∷ []

-- The `Dial` of `NewSentinelPool`: `AUTH` if there is a password, be it empty.
abbrev pub sentinel_commands : Option Bytes → ℤ → List Command
sentinel_commands none db = selecting db
sentinel_commands (some password) db = auth password ∷ selecting db

unfoldable pub sentinel_dial : Server → Option Bytes → ℤ → Dialled
unfolding connect
sentinel_dial s password db = elim (s.master_addr) [
  | err e ↦ record { events = []; failure = some e }
  | ok addr ↦ connect s addr (sentinel_commands password db)
]

-- The `Dial` of `InitReadOnlyRedisCache`: `AUTH` if the password is not empty, else `PING`.
abbrev pub read_only_commands : Bytes → ℤ → List Command
read_only_commands password db =
    (if ltb 0 (length password) then auth password else ping) ∷ selecting db

unfoldable pub read_only_dial : Server → Bytes → Bytes → ℤ → Dialled
unfolding connect
read_only_dial s host password db = connect s host (read_only_commands password db)

-- `time.Minute`.
abbrev pub minute : ℕ
minute = 60000000000

-- The `TestOnBorrow` of both pools, of a connection that has been idle for `time.Since(t)`: one of
-- less than a minute is not tested. The sentinel asks the connection for its role.
unfoldable pub sentinel_test_on_borrow : Bool → ℤ → Option RedisError
sentinel_test_on_borrow is_master idle =
    if ltb_ℤ idle (pos minute) then none else if is_master then none else some role_check_failed

unfoldable pub read_only_test_on_borrow : Server → ℤ → List Event × Option RedisError
read_only_test_on_borrow s idle =
    if ltb_ℤ idle (pos minute) then ([], none) else (sent ping ∷ [], s.reply ping)

-- `time.Duration(ms) * time.Millisecond`.
abbrev pub of_milliseconds : ℤ → ℤ
of_milliseconds ms = mul64 ms (pos millisecond)

-- A `redis.Pool`, and the expiry of the store over it.
pub record PoolConfig : Type 0 where
  pub host : Bytes
  pub max_idle : ℤ
  pub max_active : ℤ
  pub idle_timeout : ℤ
  pub conn_timeout : ℤ
  pub read_write_timeout : ℤ
  pub store_exp : ℤ

-- `if x <= 0 { x = default }`.
abbrev pub default_if_not_positive : ℤ → ℕ → ℤ
default_if_not_positive x d = if ltb_ℤ (pos 0) x then x else pos d

-- `InitReadOnlyRedisCache`, up to the store that is made of the result.
unfoldable pub init_read_only_redis_cache :
    (Bytes → Option Bytes) → Bytes → ℤ → ℤ → ℤ → ℤ → Result RedisError PoolConfig
init_read_only_redis_cache url_parse url conn_ms read_write_ms def_exp_minutes max_connections =
    elim (url_parse url) [
      | none ↦ err cannot_parse_url
      | some host ↦
          if length host == 0
          then err empty_host
          else (ok (record {
            host = host;
            max_idle = max_connections;
            max_active = max_connections;
            idle_timeout = mul64 (pos 240) (pos second);
            conn_timeout =
                of_milliseconds
                  (default_if_not_positive conn_ms def_connection_timeout_milliseconds);
            read_write_timeout =
                of_milliseconds
                  (default_if_not_positive read_write_ms def_read_write_timeout_milliseconds);
            store_exp = mul64 (mul64 (pos 60) def_exp_minutes) (pos second);
          }))
    ]
