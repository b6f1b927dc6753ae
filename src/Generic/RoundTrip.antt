-- ===== src/Generic/RoundTrip.antt =====
-- `Get` after `Set` and after `Add`, on a cache over any store (generic.go).
use go_cache.Prelude.{
  ℕ, ◌+◌, ◌/◌, ◌<◌, ap, ◌⊎◌, inl, inr, arith, ◌%◌, ◌≤◌, ◌≡◌, ◌≢◌, refl, ◌∙◌, none, some, true, [],
  length, Bytes,
}
use go_cache.Prelude.Int.{ℤ, pos}
use go_cache.Word.{add64, quot64}
use go_cache.Clock.{Instant, second, whole_seconds, Reads}
use go_cache.Clock.Exact.{to_unix-Reads}
use go_cache.Outcome.{returns, panics, ok}
use go_cache.Cipher.{AreBytes}
use go_cache.Value.{Value, bytes, entry, of_entry, entry_type, pointer}
use go_cache.Store.{CacheStore}
use go_cache.InMemory.{got}
use go_cache.Generic.{
  Codec, GenericCache, settings, exp_or_default, new_generic_cache_entry, decrypt_entry,
}
use go_cache.Generic.Crypt.{decrypt_entry-encrypt_entry}
use go_cache.Generic.Writes
use go_cache.Generic.Writes.{seal}
use go_cache.Generic.Reads
use go_cache.Generic.Reads.{read_entry}

-- A store that was handed an entry and asked for it gave an entry with the same data.
pub record Kept (s : CacheStore) (p : s.Pool) (key : Bytes) (exp : ℤ) (w : s.World) (d : Value)
    (a x : ℤ) : Type 0 where
  pub after_set : s.World
  pub after_get : s.World
  pub added : ℤ
  pub expires : ℤ
  pub is_set : s.set p key (entry d a x) exp w ≡ (returns none, after_set)
  pub is_got :
      s.get p key (pointer entry_type) after_set
      ≡ (returns (got (entry d added expires)), after_get)

abbrev pub KeepsData : (s : CacheStore) → s.Pool → Bytes → ℤ → s.World → Type 0
KeepsData s p key exp w = (d : Value) (a x : ℤ) → Kept s p key exp w d a x

-- The data can be encoded, to bytes from which they are decoded.
pub record IsCodable (k : Codec) (d : Value) : Type 0 where
  pub code : Bytes
  pub encoded : k.gob_encode d ≡ some code
  pub decodes : k.gob_decode code ≡ some d
  pub bytes : AreBytes code
  pub not_empty : code ≢ []

-- Data that `Get` cannot take for encrypted bytes.
abbrev pub IsNotBytes : Value → Type 0
IsNotBytes (bytes b) = ⊥
IsNotBytes _ = Unit {0}

-- A positive expiry, or 0 with a default that is not negative.
abbrev pub Lasts : ℤ → ℤ → ℕ → Type 0
Lasts exp default_exp life =
    ((exp ≡ pos life) × (0 < life)) ⊎ ((exp ≡ pos 0) × (default_exp ≡ pos life))

exp_or_default-Lasts : (exp d : ℤ) (life : ℕ) → Lasts exp d life → exp_or_default exp d ≡ pos life
exp_or_default-Lasts exp d life (inl h) = rw h.0 (ground arith)
exp_or_default-Lasts exp d life (inr h) = rw h.0 h.1

new_entry-Reads :
    (d : ℤ) (v : Value) (exp : ℤ) (life n : ℕ) (now : Instant)
    → Lasts exp d life
    → Reads now n
    → n + life / second < 4611686018427387904
    → new_generic_cache_entry d v exp now
      ≡ record { payload = v; time_added = pos n; expires_at = pos (n + life / second) }
unfolding new_generic_cache_entry whole_seconds quot64 add64
new_entry-Reads d v exp life n now lasts reads h = rw (exp_or_default-Lasts exp d life lasts) (
    rw (to_unix-Reads now n reads)
      (ap (λ x. record { payload = v; time_added = pos n; expires_at = x }) (ground arith)))

module _ (k : Codec) (s : CacheStore) (c : GenericCache s.Pool) (p : s.Pool)
    (cached : (settings c).cache ≡ some p) (fits : s.is_store p ≡ true) where
  module _ (on : (settings c).encrypt_data ≡ true) (long : 16 ≤ length (settings c).shared_secret)
      (secret : AreBytes (settings c).shared_secret) where
    set-encrypt_entry :
        (key : Bytes) (d : Value) (a x exp : ℤ) (now : Instant) (w : s.World) (e : IsCodable k d)
        → (out : Bytes) × (Writes.set s k c key (entry d a x) exp now w
            ≡ s.set p key
                (of_entry (new_generic_cache_entry (settings c).default_exp (bytes out) exp now))
                (exp_or_default exp (settings c).default_exp)
                w)
          × (length out % 16 ≡ 0)
          × (decrypt_entry k (settings c) out ≡ returns (ok e.code))
    unfolding Writes.set
    set-encrypt_entry key d a x exp now w e =
        let (out, made, _, blocks, back) =
          decrypt_entry-encrypt_entry k (settings c) on long secret e.code e.bytes e.not_empty in
        (
          out,
          rw (cached, Writes.set)
              (rw (on, seal) (rw (e.encoded, seal) (rw (made, seal) (rw fits refl)))),
          blocks,
          back,
        )

    -- Under a sane clock, with an expiry that is positive, or 0 with a default that is not negative,
    -- `Set` of an entry hands the store an entry of encrypted data, added at the second that the
    -- clock reads and expiring the whole seconds of its expiry, or of the default, later, and
    -- nothing else; the data are decrypted to the code of the ones given.
    pub set-encrypts :
        (key : Bytes) (d : Value) (a x exp : ℤ) (life n : ℕ) (now : Instant) (w : s.World)
        (e : IsCodable k d)
        → Lasts exp (settings c).default_exp life
        → Reads now n
        → n + life / second < 4611686018427387904
        → (out : Bytes) × (Writes.set s k c key (entry d a x) exp now w
            ≡ s.set p key (entry (bytes out) (pos n) (pos (n + life / second))) (pos life) w)
          × (length out % 16 ≡ 0)
          × (decrypt_entry k (settings c) out ≡ returns (ok e.code))
    set-encrypts key d a x exp life n now w e lasts reads fits_clock =
        let (out, set, blocks, back) = set-encrypt_entry key d a x exp now w e in
        (
          out,
          set
              ∙ ap (λ v. s.set p key v (exp_or_default exp (settings c).default_exp) w)
                  (ap of_entry (
                    new_entry-Reads (settings c).default_exp (bytes out) exp life n now lasts reads
                      fits_clock))
              ∙ ap (λ x'. s.set p key (entry (bytes out) (pos n) (pos (n + life / second))) x' w)
                  (exp_or_default-Lasts exp (settings c).default_exp life lasts),
          blocks,
          back,
        )

    -- An entry that the store gives back with encrypted data is read with the decoded data.
    get-encrypted :
        (key out : Bytes) (d initial : Value) (a x : ℤ) (w w' : s.World) (e : IsCodable k d)
        → s.get p key (pointer entry_type) w ≡ (returns (got (entry (bytes out) a x)), w')
        → decrypt_entry k (settings c) out ≡ returns (ok e.code)
        → Reads.get k s c key (pointer entry_type) initial w ≡ (returns (got (entry d a x)), w')
    unfolding Reads.get
    get-encrypted key out d initial a x w w' e h back =
        rw (cached, Reads.get)
          (rw (fits, Reads.get)
            (rw (h, Reads.get)
              (rw (on, read_entry) (rw (back, read_entry) (rw (e.decodes, read_entry) refl)))))

    -- On a store that keeps data, an entry that is set with encryption is read back with its data,
    -- whatever the variable held that it is read into.
    pub get-set_encrypted :
        (key : Bytes) (d initial : Value) (a x exp : ℤ) (now : Instant) (w : s.World)
        → IsCodable k d
        → KeepsData s p key (exp_or_default exp (settings c).default_exp) w
        → (w1 w2 : s.World) × (a' x' : ℤ) × (Writes.set s k c key (entry d a x) exp now w
            ≡ (returns none, w1))
          × (Reads.get k s c key (pointer entry_type) initial w1
              ≡ (returns (got (entry d a' x')), w2))
    unfolding new_generic_cache_entry
    get-set_encrypted key d initial a x exp now w e keeps =
        let (out, set, _, back) = set-encrypt_entry key d a x exp now w e in
        let stored = new_generic_cache_entry (settings c).default_exp (bytes out) exp now in
        let kept = keeps (bytes out) stored.time_added stored.expires_at in
        (
          kept.after_set,
          kept.after_get,
          kept.added,
          kept.expires,
          set ∙ kept.is_set,
          get-encrypted key out d initial kept.added kept.expires kept.after_set kept.after_get e
              kept.is_got back,
        )

  open_panics :
      (a x : ℤ) (d : Value) (w : s.World)
      → IsNotBytes d
      → Reads.open_entry k s (settings c) (entry d a x) w ≡ (panics, w)
  open_panics a x (bytes b) w h = absurd h
  open_panics a x d w h = refl

  -- `Add` does not encrypt: with encryption on, an entry that it adds, if its data are no bytes,
  -- makes the next `Get` of the key panic, on any store that gives back what it was handed.
  pub get-add_panics :
      (key : Bytes) (d initial : Value) (a x a' x' exp : ℤ) (w w1 w2 : s.World)
      → (settings c).encrypt_data ≡ true
      → IsNotBytes d
      → s.add p key (entry d a x) (exp_or_default exp (settings c).default_exp) w
        ≡ (returns none, w1)
      → s.get p key (pointer entry_type) w1 ≡ (returns (got (entry d a' x')), w2)
      → (Writes.add s c key (entry d a x) exp w ≡ (returns none, w1))
        × (Reads.get k s c key (pointer entry_type) initial w1 ≡ (panics, w2))
  unfolding Writes.add Reads.get
  get-add_panics key d initial a x a' x' exp w w1 w2 on nb h g = (
    rw (cached, Writes.add) (rw (fits, Writes.add) h),
    rw (cached, Reads.get)
        (rw (fits, Reads.get)
          (rw (g, Reads.get) (rw (on, read_entry) (open_panics a' x' d w2 nb)))),
  )
