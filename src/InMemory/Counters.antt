-- ===== src/InMemory/Counters.antt =====
-- `Increment` and `Decrement` (inmemory.go).
use go_cache.Prelude.{
  ℕ, ◌+◌, ◌-◌, ◌%◌, ◌≡◌, ◌<◌, ◌≤◌, refl, ap, ◌∙◌, none, some, Bytes, ◌⊎◌, inl, inr, true, false,
  ltb, if◌then◌else◌, arith,
}
use go_cache.Prelude.Int.{ℤ, pos}
use go_cache.Word.{add64, sub64, to_uint64, to_int64, word_mod, sign_bit, IsInt64}
use go_cache.Outcome.{returns}
use go_cache.Value.{int, entry}
use go_cache.Lru.{Arc, run}
use go_cache.Lru.Run.{run-lru_get}
use go_cache.InMemory
use go_cache.InMemory.{incremented, decremented, count, count_found, count_to}

-- Modulo 2^64 an increment adds, whatever the signs.
to_uint64-incremented :
    (d : ℤ) (n : ℕ)
    → IsInt64 d
    → n < word_mod
    → to_uint64 (incremented d n) ≡ (to_uint64 d + n) % word_mod
unfolding add64 to_int64 to_uint64
to_uint64-incremented d n h k = ground arith

decremented_lem : (d n : ℕ) → d < sign_bit → n < sign_bit → decremented (pos d) n ≡ pos (d - n)
unfolding sub64 to_int64 to_uint64
decremented_lem d n h k = ground arith

decremented_above :
    (d n : ℕ)
    → sign_bit ≤ n
    → n < word_mod
    → d + (word_mod - n) < sign_bit
    → decremented (pos d) n ≡ pos (d + (word_mod - n))
unfolding sub64 to_int64 to_uint64
decremented_above d n h k b = ground arith

ltb_below : (a b : ℕ) → a < b → ltb a b ≡ true
ltb_below a b h = ground arith

ltb_from : (a b : ℕ) → b ≤ a → ltb a b ≡ false
ltb_from a b h = ground arith

to_uint64-pos : (n : ℕ) → n < word_mod → to_uint64 (pos n) ≡ n
unfolding to_uint64
to_uint64-pos n h = omega arith

module _ (arc : Arc) (l : arc.Lru) (key : Bytes) (n : ℕ) where
  open arc use {peek}

  run-count :
      (op : ℤ → ℕ → ℤ) (d a x : ℤ)
      → peek l key ≡ some (entry (int d) a x)
      → ((run arc (count op key n) l).0 ≡ returns (to_uint64 (op d n), none))
        × (peek (run arc (count op key n) l).1 key ≡ some (entry (int (op d n)) a x))
  unfolding count run
  run-count op d a x h =
      rw (run-lru_get arc l key (count_found op key n) _ h) (refl, arc.peek-add_self _ key _)

  -- An increment of a cached `int` returns the sum modulo 2^64, and caches the same bits as an
  -- `int` under the times of the entry, which may have expired.
  pub increment_lem :
      (d a x : ℤ)
      → IsInt64 d
      → n < word_mod
      → peek l key ≡ some (entry (int d) a x)
      → ((run arc (InMemory.increment key n) l).0 ≡ returns ((to_uint64 d + n) % word_mod, none))
        × (peek (run arc (InMemory.increment key n) l).1 key
            ≡ some (entry (int (add64 d (to_int64 n))) a x))
  unfolding InMemory.increment
  increment_lem d a x h k e =
      let both = run-count incremented d a x e in
      (both.0 ∙ ap (λ (m : ℕ). returns (m, none)) (to_uint64-incremented d n h k), both.1)

  run-decrement :
      (d r : ℕ) (a x : ℤ)
      → r < sign_bit
      → decremented (pos d) n ≡ pos r
      → peek l key ≡ some (entry (int (pos d)) a x)
      → ((run arc (InMemory.decrement key n) l).0 ≡ returns (r, none))
        × (peek (run arc (InMemory.decrement key n) l).1 key ≡ some (entry (int (pos r)) a x))
  unfolding InMemory.decrement
  run-decrement d r a x h same e =
      let both = run-count decremented (pos d) a x e in
      (
        both.0
            ∙ ap (λ (z : ℤ). returns (to_uint64 z, none)) same
            ∙ ap (λ (m : ℕ). returns (m, none)) (to_uint64-pos r (omega arith)),
        both.1 ∙ ap (λ (z : ℤ). some (entry (int z) a x)) same,
      )

  -- A decrement of a cached number that is not negative stops at 0 if it is by less than 2^63. By
  -- more, it does not: it adds to a number that is small enough what `n` lacks to 2^64.
  pub decrement_lem :
      (d : ℕ) (a x : ℤ)
      → d < sign_bit
      → n < word_mod
      → (n < sign_bit) ⊎ ((sign_bit ≤ n) × (d + (word_mod - n) < sign_bit))
      → peek l key ≡ some (entry (int (pos d)) a x)
      → let r = if ltb n sign_bit then d - n else d + (word_mod - n) in
        ((run arc (InMemory.decrement key n) l).0 ≡ returns (r, none))
        × (peek (run arc (InMemory.decrement key n) l).1 key ≡ some (entry (int (pos r)) a x))
  decrement_lem d a x h k (inl small) e =
      rw (ltb_below n sign_bit small)
        (run-decrement d (d - n) a x (omega arith) (decremented_lem d n h small) e)
  decrement_lem d a x h k (inr (large, fits)) e =
      rw (ltb_from n sign_bit large)
        (run-decrement d (d + (word_mod - n)) a x fits (decremented_above d n large k fits) e)
