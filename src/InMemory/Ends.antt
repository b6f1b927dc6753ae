-- ===== src/InMemory/Ends.antt =====
-- Every method of inmemory.go comes to its end in a few calls of the LRU library, whatever other
-- goroutines do to the cache between them.
use go_cache.Prelude.{
  sym, subst, ◌∙◌, ◌++◌, ℕ, zero, suc, ◌*◌, ◌≡◌, ◌≤◌, refl, ap, none, some, List, [], ◌∷◌, Bytes,
  Bool, true, false, if◌then◌else◌, get_elem?, length, arith,
}
use go_cache.Prelude.Int.{ℤ}
use go_cache.Clock.{Instant}
use go_cache.Value.{
  Value, string, int, response, entry, GenericCacheEntry, string_type, int_type, response_type,
  Target, pointer, expired,
}
use go_cache.Lru.{Arc, Prog, step}
use go_cache.Lru.Threads.{turn, interleave}
use go_cache.Lru.Turns.{
  Ends, turns, IsFinished, >>=-Ends, interleave-IsFinished, turn_self, Ends-weaken, interleave-++,
  interleave-waiting,
}
use go_cache.InMemory
use go_cache.InMemory.{assert_entry, write_out, count_to, count, sweep}
use go_cache.InMemory.Calls.{
  Call, get, set, add, replace, update, delete, increment, decrement, keys, len, flush,
  delete_expired, perform, goroutines,
}

if-Ends :
    {A : Type 0} (n : ℕ) (b : Bool) (p q : Prog A)
    → Ends n p
    → Ends n q
    → Ends n (if b then p else q)
if-Ends n true p q h k = h
if-Ends n false p q h k = k

write_out-Ends : (t : Target) (e : GenericCacheEntry) → Ends 1 (write_out t e)
write_out-Ends (pointer string_type) e = by_payload e.payload
  where
    by_payload : (v : Value) → Ends 1 (write_out (pointer string_type) (record e { payload = v }))
    by_payload (string s) = tt
    by_payload v = tt
write_out-Ends (pointer int_type) e = by_payload e.payload
  where
    by_payload : (v : Value) → Ends 1 (write_out (pointer int_type) (record e { payload = v }))
    by_payload (int s) = tt
    by_payload v = tt
write_out-Ends (pointer response_type) e = by_payload e.payload
  where
    by_payload : (v : Value) → Ends 1 (write_out (pointer response_type) (record e { payload = v }))
    by_payload (response s) = tt
    by_payload v = tt
write_out-Ends t e = tt

get-Ends : (key : Bytes) (t : Target) (now : Instant) → Ends 2 (InMemory.get key t now)
unfolding InMemory.get
get-Ends key t now = elim [
  | none ↦ tt
  | some (entry d a x) ↦ if-Ends 1 (expired _ now) _ _ tt (write_out-Ends t _)
  | some _ ↦ tt
]

count-Ends : (op : ℤ → ℕ → ℤ) (key : Bytes) (n : ℕ) → Ends 2 (count op key n)
unfolding count count_to
count-Ends op key n = elim [
  | none ↦ tt
  | some (entry (int d) a x) ↦ tt
  | some (entry d a x) ↦ tt
  | some _ ↦ tt
]

abbrev double : ℕ → ℕ
double zero = 0
double (suc n) = suc (suc (double n))

double-eq : (n : ℕ) → double n ≡ 2 * n
double-eq zero = refl
double-eq (suc n) = omega (arith, double-eq n)

-- The sweep of `ks` makes two calls for each at most.
sweep-Ends :
    (clock : ℕ → Instant) (i : ℕ) (ks : List Bytes) → Ends (double (length ks)) (sweep clock i ks)
unfolding sweep
sweep-Ends clock i [] = tt
sweep-Ends clock i (k ∷ ks) =
    let rest = sweep-Ends clock (suc i) ks in
    let later = Ends-weaken (double (length ks)) (sweep clock (suc i) ks) rest in
    elim [
      | none ↦ later
      | some (entry d a x) ↦ if-Ends _ (expired _ (clock i)) _ _ rest later
      | some _ ↦ tt
    ]

abbrev pub IsMethod : Call → Type 0
IsMethod (delete_expired clock) = ⊥
IsMethod _ = Unit {0}

perform-Ends : (d : ℤ) (c : Call) → IsMethod c → Ends 2 (perform d c)
unfolding perform
perform-Ends d (get key t now) h = >>=-Ends 2 (InMemory.get key t now) _ (get-Ends key t now)
perform-Ends d (set key v exp now) h = tt
perform-Ends d (add key v exp now) h = elim [ none ↦ tt | some v' ↦ tt ]
perform-Ends d (replace key v exp now) h = elim [ none ↦ tt | some v' ↦ tt ]
perform-Ends d (update key e) h = elim [ none ↦ tt | some v' ↦ tt ]
perform-Ends d (delete key) h = elim [ none ↦ tt | some v' ↦ tt ]
perform-Ends d (increment key n) h =
    >>=-Ends 2 (InMemory.increment key n) _ (count-Ends InMemory.incremented key n)
perform-Ends d (decrement key n) h =
    >>=-Ends 2 (InMemory.decrement key n) _ (count-Ends InMemory.decremented key n)
perform-Ends d keys h = λ ks. tt
perform-Ends d len h = λ n. tt
perform-Ends d flush h = tt
perform-Ends d (delete_expired clock) h = absurd h

goroutine :
    (d : ℤ) (cs : List Call) (i : ℕ) (c : Call)
    → get_elem? cs i ≡ some c
    → get_elem? (goroutines d cs) i ≡ some (perform d c)
unfolding goroutines
goroutine d [] i c h = absurd (ground arith)
goroutine d (b ∷ cs) zero c h = let same : b ≡ c = cc in ap (λ (x : Call). some (perform d x)) same
goroutine d (b ∷ cs) (suc i) c h = goroutine d cs i c h

-- Goroutine `i` has the turns that its request needs: two for a method, and for a sweep, after
-- the turn in which it reads the keys, two for each key that the cache holds then. The others have
-- any turns, before that turn and after it.
abbrev pub HasTurns : (arc : Arc) → ℤ → List Call → arc.Lru → ℕ → List ℕ → Call → Type 0
HasTurns arc d cs l i is (delete_expired clock) =
    (before after : List ℕ) × (is ≡ before ++ i ∷ after)
    × (turns i before ≡ 0)
    × (2 * length (arc.keys (interleave arc before (goroutines d cs) l).1) ≤ turns i after)
HasTurns arc d cs l i is _ = 2 ≤ turns i is

module _ (arc : Arc) (d : ℤ) (cs : List Call) (l : arc.Lru) (i : ℕ) where
  method-finishes :
      (is : List ℕ) (c : Call)
      → get_elem? cs i ≡ some c
      → IsMethod c
      → 2 ≤ turns i is
      → IsFinished (interleave arc is (goroutines d cs) l).0 i
  method-finishes is c h m k =
      interleave-IsFinished arc is (goroutines d cs) l i 2 (perform d c) (goroutine d cs i c h)
        (perform-Ends d c m) k

  sweep-finishes :
      (before after : List ℕ) (clock : ℕ → Instant)
      → get_elem? cs i ≡ some (delete_expired clock)
      → turns i before ≡ 0
      → 2 * length (arc.keys (interleave arc before (goroutines d cs) l).1) ≤ turns i after
      → IsFinished (interleave arc (before ++ i ∷ after) (goroutines d cs) l).0 i
  unfolding interleave perform step InMemory.delete_expired
  sweep-finishes before after clock h waits k =
      let ps = (interleave arc before (goroutines d cs) l).0 in
      let l1 = (interleave arc before (goroutines d cs) l).1 in
      let at : get_elem? ps i ≡ some (perform d (delete_expired clock)) =
        interleave-waiting arc before (goroutines d cs) l i waits
        ∙ goroutine d cs i (delete_expired clock) h in
      subst (λ r. IsFinished r.0 i) (sym (interleave-++ arc before (i ∷ after) (goroutines d cs) l))
        (interleave-IsFinished arc after (turn arc i ps l1).0 (turn arc i ps l1).1 i
          (double (length (arc.keys l1))) (sweep clock 0 (arc.keys l1)) (turn_self arc i ps l1 _ at)
          (sweep-Ends clock 0 (arc.keys l1)) (omega (arith, double-eq (length (arc.keys l1)))))

-- Requests in goroutines of their own, interleaved in any order: a method is at its end after two
-- turns of its goroutine, and a sweep after its first turn, in which it reads the keys, and two
-- more for each key that it read, whatever turns the others have before, between and after.
pub goroutines-finish :
    (arc : Arc) (d : ℤ) (cs : List Call) (l : arc.Lru) (i : ℕ) (is : List ℕ) (c : Call)
    → get_elem? cs i ≡ some c
    → HasTurns arc d cs l i is c
    → IsFinished (interleave arc is (goroutines d cs) l).0 i
goroutines-finish arc d cs l i is (delete_expired clock) h (before, after, parts, waits, k) =
    subst (λ js. IsFinished (interleave arc js (goroutines d cs) l).0 i) (sym parts)
      (sweep-finishes arc d cs l i before after clock h waits k)
goroutines-finish arc d cs l i is (get key t now) h k = method-finishes arc d cs l i is _ h tt k
goroutines-finish arc d cs l i is (set key v exp now) h k = method-finishes arc d cs l i is _ h tt k
goroutines-finish arc d cs l i is (add key v exp now) h k = method-finishes arc d cs l i is _ h tt k
goroutines-finish arc d cs l i is (replace key v exp now) h k =
    method-finishes arc d cs l i is _ h tt k
goroutines-finish arc d cs l i is (update key e) h k = method-finishes arc d cs l i is _ h tt k
goroutines-finish arc d cs l i is (delete key) h k = method-finishes arc d cs l i is _ h tt k
goroutines-finish arc d cs l i is (increment key n) h k = method-finishes arc d cs l i is _ h tt k
goroutines-finish arc d cs l i is (decrement key n) h k = method-finishes arc d cs l i is _ h tt k
goroutines-finish arc d cs l i is keys h k = method-finishes arc d cs l i is _ h tt k
goroutines-finish arc d cs l i is len h k = method-finishes arc d cs l i is _ h tt k
goroutines-finish arc d cs l i is flush h k = method-finishes arc d cs l i is _ h tt k
