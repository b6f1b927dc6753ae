-- ===== src/InMemory/Expiry.antt =====
-- How long a value that was written can be read (inmemory.go).
use go_cache.Prelude.{
  ℕ, ◌+◌, ◌/◌, ◌≡◌, ◌<◌, refl, ◌∙◌, none, some, Bool, true, false, Bytes, if◌then◌else◌, Bool-cases,
  inl, inr, ltb, ◌==◌, ◌&&◌, ◌||◌, arith,
}
use go_cache.Prelude.Int.{ℤ, pos}
use go_cache.Word.{add64, quot64}
use go_cache.Clock.{Instant, whole_seconds, second, Reads}
use go_cache.Clock.Exact.{to_unix-Reads, before-unix}
use go_cache.Outcome.{Outcome, returns}
use go_cache.Error.{cache_miss}
use go_cache.Value.{Value, string, of_entry, string_type, Target, pointer, expired}
use go_cache.Lru.{Arc, run}
use go_cache.InMemory
use go_cache.InMemory.{Got, got, failed, expiry, new_entry, forever}
use go_cache.InMemory.Entries.{Sees, get_expired, get_live}

-- The clock is past the deadline: past it by a second, or in the second of the deadline after the
-- second has begun.
abbrev pub past : ℕ → ℕ → Instant → Bool
past deadline n now = ltb deadline n || ((deadline == n) && ltb 0 now.nsec)

-- Written for a positive duration, and read by a clock that reads `n` seconds.
pub expired-new_entry :
    (d : ℤ) (v : Value) (x m n : ℕ) (now later : Instant)
    → Reads now m
    → Reads later n
    → 0 < m
    → 0 < x
    → m + x / second < 4611686018427387904
    → expired (new_entry d v (pos x) now) later ≡ past (m + x / second) n later
unfolding expired new_entry expiry whole_seconds quot64 add64
expired-new_entry d v x m n now later r s p q h =
    ground (arith, to_unix-Reads now m r, before-unix (m + x / second) n later s)

expired-forever :
    (d : ℤ) (v : Value) (now later : Instant) → expired (new_entry d v forever now) later ≡ false
unfolding expired new_entry expiry
expired-forever d v now later = refl

module _ (arc : Arc) (d : ℤ) (l : arc.Lru) (key : Bytes) (v : Value) where
  open arc use {peek}

  -- `Set` never fails, and caches the value as an entry of its own times.
  pub set_lem :
      (exp : ℤ) (now : Instant)
      → ((run arc (InMemory.set d key v exp now) l).0 ≡ returns none)
        × (peek (run arc (InMemory.set d key v exp now) l).1 key
            ≡ some (of_entry (new_entry d v exp now)))
  unfolding InMemory.set run
  set_lem exp now = (refl, arc.peek-add_self l key _)

  -- After a `Set` a `Get` of the key is a miss, and drops the key, if the entry has expired, and
  -- sees the entry if not.
  pub get-set :
      (exp : ℤ) (now later : Instant) (t : Target)
      → let e = new_entry d v exp now in
        let r = run arc (InMemory.get key t later) (run arc (InMemory.set d key v exp now) l).1 in
        (expired e later ≡ true → (r.0 ≡ returns (failed cache_miss)) × (peek r.1 key ≡ none))
        × (expired e later ≡ false → Sees t e r.0 × (peek r.1 key ≡ some (of_entry e)))
  get-set exp now later t =
      let cached = (set_lem exp now).1 in
      (
        get_expired arc _ key t later (new_entry d v exp now) cached,
        get_live arc _ key t later (new_entry d v exp now) cached,
      )

  -- What is set with FOREVER is seen whenever the key is read next.
  pub get-set_forever :
      (now later : Instant) (t : Target)
      → Sees t
          (new_entry d v forever now)
          (run arc (InMemory.get key t later) (run arc (InMemory.set d key v forever now) l).1).0
  get-set_forever now later t = ((get-set forever now later t).1 (expired-forever d v now later)).0

-- A string set for a positive duration at second `m` can be read until the clock has passed `m`
-- plus the whole seconds of the duration, and is a miss from then on, as long as these seconds
-- stay in the range of a sane clock.
pub get-set_deadline :
    (arc : Arc) (d : ℤ) (l : arc.Lru) (key text : Bytes) (x m n : ℕ) (now later : Instant)
    → Reads now m
    → Reads later n
    → 0 < m
    → 0 < x
    → m + x / second < 4611686018427387904
    → (run arc
        (InMemory.get key (pointer string_type) later)
        (run arc (InMemory.set d key (string text) (pos x) now) l).1).0
      ≡ returns (if past (m + x / second) n later then failed cache_miss else got (string text))
unfolding new_entry
get-set_deadline arc d l key text x m n now later r s p q h =
    let e = expired-new_entry d (string text) x m n now later r s p q h in
    let both = get-set arc d l key (string text) (pos x) now later (pointer string_type) in
    elim (Bool-cases (past (m + x / second) n later)) [
      | inl late ↦ rw late (both.0 (e ∙ late)).0
      | inr early ↦ rw early (seen (both.1 (e ∙ early)).0)
    ]
  where
    seen :
        {o : Outcome Got}
        → Sees (pointer string_type) (new_entry d (string text) (pos x) now) o
        → o ≡ returns (got (string text))
    seen (inl h) = h.1
    seen (inr h) = absurd (h.0 refl)
