-- ===== src/Redis/Dial.antt =====
-- What a dial leaves behind (redispool.go).
use go_cache.Prelude.{
  ◌≡◌, refl, ap, ◌⊎◌, inl, inr, Option, none, some, List, [], ◌∷◌, ◌++◌, Bytes, map,
}
use go_cache.Prelude.Int.{ℤ}
use go_cache.Outcome.{Result, ok, err}
use go_cache.Redis.{
  RedisError, Command, Event, connected, sent, closed, Dialled, Server, commands, connect,
  sentinel_commands, sentinel_dial, read_only_commands, read_only_dial,
}

-- The commands were all sent, one after the other.
abbrev sent_all : List Command → List Event
sent_all = map sent

-- A connection is closed exactly if the dial fails after it was made. `cs` are the commands of the
-- dial: a dial that does not fail sent them all and closed nothing; one that fails either never
-- had a connection, or sent some of them and then closed it, which is the last that it did.
abbrev pub IsTidy : List Command → Dialled → Type 0
IsTidy cs r =
    ((r.failure ≡ none) × ((addr : Bytes) × (r.events ≡ connected addr ∷ sent_all cs)))
    ⊎ ((e : RedisError) × (r.failure ≡ some e)
        × ((r.events ≡ [])
            ⊎ ((addr : Bytes) × (done : List Command) × (r.events
                  ≡ connected addr ∷ (sent_all done ++ closed ∷ [])))))

commands-cases :
    (s : Server) (cs : List Command)
    → (((commands s cs).failure ≡ none) × ((commands s cs).events ≡ sent_all cs))
      ⊎ ((e : RedisError) × (done : List Command) × ((commands s cs).failure ≡ some e)
          × ((commands s cs).events ≡ sent_all done ++ closed ∷ []))
unfolding commands
commands-cases s [] = inl (refl, refl)
commands-cases s (c ∷ cs) = by_reply (s.reply c) refl (commands-cases s cs)
  where
    Goal : Dialled → Type 0
    Goal r =
        ((r.failure ≡ none) × (r.events ≡ sent_all (c ∷ cs)))
        ⊎ ((e : RedisError) × (done : List Command) × (r.failure ≡ some e)
            × (r.events ≡ sent_all done ++ closed ∷ []))

    by_reply :
        (o : Option RedisError)
        → s.reply c ≡ o
        → (((commands s cs).failure ≡ none) × ((commands s cs).events ≡ sent_all cs))
          ⊎ ((e : RedisError) × (done : List Command) × ((commands s cs).failure ≡ some e)
              × ((commands s cs).events ≡ sent_all done ++ closed ∷ []))
        → Goal (commands s (c ∷ cs))
    by_reply (some e) h rest = rw (h, commands) (inr (e, c ∷ [], refl, refl))
    by_reply none h (inl (f, v)) = rw (h, commands) (inl (f, ap (◌∷◌ (sent c)) v))
    by_reply none h (inr (e, done, f, v)) =
        rw (h, commands) (inr (e, c ∷ done, f, ap (◌∷◌ (sent c)) v))

connect-IsTidy : (s : Server) (addr : Bytes) (cs : List Command) → IsTidy cs (connect s addr cs)
unfolding connect
connect-IsTidy s addr cs = by_dial (s.dial addr) refl (commands-cases s cs)
  where
    by_dial :
        (o : Option RedisError)
        → s.dial addr ≡ o
        → (((commands s cs).failure ≡ none) × ((commands s cs).events ≡ sent_all cs))
          ⊎ ((e : RedisError) × (done : List Command) × ((commands s cs).failure ≡ some e)
              × ((commands s cs).events ≡ sent_all done ++ closed ∷ []))
        → IsTidy cs (connect s addr cs)
    by_dial (some e) h r = rw (h, connect) (inr (e, refl, inl refl))
    by_dial none h (inl (f, v)) = rw (h, connect) (inl (f, (addr, ap (◌∷◌ (connected addr)) v)))
    by_dial none h (inr (e, done, f, v)) =
        rw (h, connect) (inr (e, f, inr (addr, done, ap (◌∷◌ (connected addr)) v)))

-- A dial of the sentinel pool or of the read-only pool closes its connection exactly if it fails
-- after it got one, as the last thing it does; if it succeeds it has sent `AUTH` with the password,
-- or, read-only and with none, `PING`, and then `SELECT`, unless of database 0.
pub dials-IsTidy :
    (s : Server) (password : Option Bytes) (host plain : Bytes) (db : ℤ)
    → IsTidy (sentinel_commands password db) (sentinel_dial s password db)
      × IsTidy (read_only_commands plain db) (read_only_dial s host plain db)
unfolding sentinel_dial read_only_dial
dials-IsTidy s password host plain db =
    (by_addr s.master_addr refl, connect-IsTidy s host (read_only_commands plain db))
  where
    by_addr :
        (r : Result RedisError Bytes)
        → s.master_addr ≡ r
        → IsTidy (sentinel_commands password db) (sentinel_dial s password db)
    by_addr (ok addr) h =
        rw (h, sentinel_dial) (connect-IsTidy s addr (sentinel_commands password db))
    by_addr (err e) h = rw (h, sentinel_dial) (inr (e, refl, inl refl))
