-- ===== src/Example/Twice.antt =====
-- Two requests for an entry (example/example.go).
use go_cache.Prelude.{◌≤◌, ◌≡◌, ◌⊎◌, inl, inr, refl, none, some, true, false, length, Bytes}
use go_cache.Prelude.Int.{ℤ, pos}
use go_cache.Clock.{Instant}
use go_cache.Outcome.{returns}
use go_cache.Error.{Error}
use go_cache.Cipher.{AreBytes}
use go_cache.Value.{Value, nil, entry, entry_type, pointer}
use go_cache.Store.{CacheStore}
use go_cache.InMemory.{got, failed}
use go_cache.Generic.{Codec, GenericCache, settings, exp_or_default, new_generic_cache_entry}
use go_cache.Generic.RoundTrip.{KeepsData, IsCodable, get-set_encrypted}
use go_cache.Generic.Writes
use go_cache.Generic.Writes.{seal}
use go_cache.Generic.Reads
use go_cache.Generic.Reads.{read_entry}
use go_cache.Keys.{get_key}
use go_cache.Example.{reply, three_minutes, new_value, entry_handler, set_later}

module _ (k : Codec) (s : CacheStore) (c : GenericCache s.Pool) (p : s.Pool)
    (cached : (settings c).cache ≡ some p) (fits : s.is_store p ≡ true) where
  -- The cache does not encrypt, or it has a secret that is long enough, and the data can be coded.
  abbrev pub CanCarry : Value → Type 0
  CanCarry d =
      ((settings c).encrypt_data ≡ false)
      ⊎ (((settings c).encrypt_data ≡ true)
          × (16 ≤ length (settings c).shared_secret)
          × AreBytes (settings c).shared_secret
          × IsCodable k d)

  -- On a store that keeps data, an entry that is set is read back with its data.
  get-set_carried :
      (key : Bytes) (d initial : Value) (a x exp : ℤ) (now : Instant) (w : s.World)
      → CanCarry d
      → KeepsData s p key (exp_or_default exp (settings c).default_exp) w
      → (w1 w2 : s.World) × (a' x' : ℤ) × (Writes.set s k c key (entry d a x) exp now w
          ≡ (returns none, w1))
        × (Reads.get k s c key (pointer entry_type) initial w1
            ≡ (returns (got (entry d a' x')), w2))
  unfolding Writes.set Reads.get
  get-set_carried key d initial a x exp now w (inl off) keeps =
      let kept = keeps d a x in
      (
        kept.after_set,
        kept.after_get,
        kept.added,
        kept.expires,
        rw (cached, Writes.set) (rw (off, seal) (rw (fits, Writes.set_sealed) kept.is_set)),
        rw (cached, Reads.get)
            (rw (fits, Reads.get) (rw (kept.is_got, Reads.get) (rw (off, read_entry) refl))),
      )
  get-set_carried key d initial a x exp now w (inr (on, long, secret, e)) keeps =
      get-set_encrypted k s c p cached fits on long secret key d initial a x exp now w e keeps

  -- On a store that keeps data, a request whose `Get` fails is answered with a new entry, which its
  -- goroutine sets without an error; the next request is answered with an entry of the same data,
  -- and sets nothing.
  pub entry_handler-twice :
      (name : Bytes) (d : Value) (e : Error) (now then next : Instant) (w w1 : s.World)
      → CanCarry d
      → Reads.get k s c
          (get_key k (settings c) name)
          (pointer entry_type)
          (entry nil (pos 0) (pos 0))
          w
        ≡ (returns (failed e), w1)
      → KeepsData s p
          (get_key k (settings c) name)
          (exp_or_default (pos three_minutes) (settings c).default_exp)
          w1
      → let new = new_value k s name d c now in
        (entry_handler k s name d c now w ≡ (returns (reply new (some new)), w1))
        × (w2 w3 : s.World) × (a x : ℤ) × (set_later k s name d c new then w1 ≡ (returns none, w2))
        × (entry_handler k s name d c next w2 ≡ (returns (reply (entry d a x) none), w3))
  unfolding entry_handler set_later new_generic_cache_entry
  entry_handler-twice name d e now then next w w1 carried missed keeps =
      let new = new_generic_cache_entry (settings c).default_exp d (pos three_minutes) now in
      let (w2, w3, a, x, set, read) =
        get-set_carried (get_key k (settings c) name) d (entry nil (pos 0) (pos 0)) new.time_added
          new.expires_at (pos three_minutes) then w1 carried keeps in
      (rw (missed, entry_handler) refl, w2, w3, a, x, set, rw (read, entry_handler) refl)
