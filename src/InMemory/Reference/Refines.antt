-- ===== src/InMemory/Reference/Refines.antt =====
-- The methods of inmemory.go that name a key do what the reference says.
use go_cache.Prelude.{
  ℕ, ◌≡◌, refl, sym, ap, subst, inl, inr, Option, none, some, List, [], ◌∷◌, Bytes, Bool-cases,
}
use go_cache.Prelude.Int.{ℤ}
use go_cache.Clock.{Instant}
use go_cache.Outcome.{Outcome}
use go_cache.Value.{
  Value, string, int, response, entry, GenericCacheEntry, of_entry, IsEntryIfAny, string_type,
  int_type, response_type, Target, pointer, expired,
}
use go_cache.Lru.{Arc, Prog, ret, lru_get, lru_add, lru_remove, run, ◌>>=◌}
use go_cache.Lru.Run.{HoldsEntries, run-lru_get}
use go_cache.Error.{cache_miss, not_stored}
use go_cache.InMemory.{
  write_out, get_found, count_found, count_to, incremented, decremented, do_add_set, if_found,
}
use go_cache.InMemory.Reference.{
  KeyCall, get, set, add, replace, update, delete, increment, decrement, Reply, read, done, counted,
  answer, Cell, shown, reading, spec, count_cell, Adds, History, start, call, transcript, replying,
}
use go_cache.InMemory.Reference.Moved.{
  to_cell, view, Moved, get-Moved, remove-Moved, set-Moved, put-Moved,
}

module _ (arc : Arc) where
  open arc use {Lru, peek}

  write_out_lem :
      (t : Target) (e : GenericCacheEntry) (l : Lru)
      → run arc (write_out t e >>= λ g. ret (read g)) l ≡ (reading (shown t e), l)
  unfolding run
  write_out_lem (pointer string_type) e l = by_payload e.payload
    where
      by_payload :
          (v : Value)
          → run arc
              (write_out (pointer string_type) (record e { payload = v }) >>= λ g. ret (read g))
              l
            ≡ (reading (shown (pointer string_type) (record e { payload = v })), l)
      by_payload (string s) = refl
      by_payload v = refl
  write_out_lem (pointer int_type) e l = by_payload e.payload
    where
      by_payload :
          (v : Value)
          → run arc
              (write_out (pointer int_type) (record e { payload = v }) >>= λ g. ret (read g))
              l
            ≡ (reading (shown (pointer int_type) (record e { payload = v })), l)
      by_payload (int s) = refl
      by_payload v = refl
  write_out_lem (pointer response_type) e l = by_payload e.payload
    where
      by_payload :
          (v : Value)
          → run arc
              (write_out (pointer response_type) (record e { payload = v }) >>= λ g. ret (read g))
              l
            ≡ (reading (shown (pointer response_type) (record e { payload = v })), l)
      by_payload (response s) = refl
      by_payload v = refl
  write_out_lem t e l = refl

  -- A reply, and how the cells have moved.
  abbrev pub Meets : Lru → Bytes → Type 0 → Outcome Reply × Cell → Outcome Reply × Lru → Type 0
  Meets l key E s r = (r.0 ≡ s.0) × Moved arc l key E s.1 r.1

  module _ (d : ℤ) (l : Lru) (key : Bytes) (h : HoldsEntries arc l) where
    -- A method that first asks for its key.
    asking :
        (E : Type 0) (f : Option Value → Prog Reply) (s : Cell → Outcome Reply × Cell)
        → ((o : Option Value)
            → IsEntryIfAny o
            → peek l key ≡ o
            → Meets l key E (s (to_cell o)) (run arc (f o) (arc.get l key).1))
        → Meets l key E (s (view arc l key)) (run arc (lru_get key f) l)
    asking E f s all =
        subst (λ (r : Outcome Reply × Lru). Meets l key E (s (view arc l key)) r)
          (sym (run-lru_get arc l key f (peek l key) refl)) (all (peek l key) (h key) refl)

    unchanged :
        (E : Type 0) (o : Option Value)
        → peek l key ≡ o
        → Moved arc l key E (to_cell o) (arc.get l key).1
    unchanged E o e =
        subst (λ (c : Cell). Moved arc l key E c (arc.get l key).1) (ap to_cell e)
          (get-Moved arc l key E h)

    get_cases :
        (t : Target) (now : Instant) (o : Option Value)
        → IsEntryIfAny o
        → peek l key ≡ o
        → Meets l key ⊥
            (spec d (get t now) (to_cell o))
            (run arc (replying read (get_found key t now o)) (arc.get l key).1)
    unfolding get_found run
    get_cases t now none i e = (refl, unchanged ⊥ _ e)
    get_cases t now (some (entry p a x)) i e =
        let found : GenericCacheEntry = record { payload = p; time_added = a; expires_at = x } in
        elim (Bool-cases (expired found now)) [
          | inl old ↦ rw (old, get_found) (refl, remove-Moved arc l key ⊥ h)
          | inr live ↦
              rw (live, get_found)
                (rw (write_out_lem t found (arc.get l key).1) (refl, unchanged ⊥ _ e))
        ]
    get_cases t now (some _) i e = absurd i

    count_cases :
        (op : ℤ → ℕ → ℤ) (n : ℕ) (o : Option Value)
        → IsEntryIfAny o
        → peek l key ≡ o
        → Meets l key
            (Unit {0})
            (count_cell (λ (m : ℤ). op m n) (to_cell o))
            (run arc (replying counted (count_found op key n o)) (arc.get l key).1)
    unfolding count_found count_to run
    count_cases op n none i e = (refl, unchanged (Unit {0}) _ e)
    count_cases op n (some (entry (int m) a x)) i e = (refl, put-Moved arc l key _ h)
    count_cases op n (some (entry p a x)) i e = (refl, unchanged (Unit {0}) _ e)
    count_cases op n (some _) i e = absurd i

    pub answer_refines :
        (call : KeyCall)
        → Meets l key (Adds call) (spec d call (view arc l key)) (run arc (answer d key call) l)
    unfolding answer run get_found count_found count_to do_add_set
    answer_refines (get t now) =
        asking ⊥ (λ o. replying read (get_found key t now o)) (spec d (get t now)) (get_cases t now)
    answer_refines (set v exp now) = (refl, set-Moved arc l key _ h)
    answer_refines (add v exp now) =
        asking (Unit {0})
          (λ o. replying done (if_found (ret (some not_stored)) (do_add_set d key v exp now) o))
          (spec d (add v exp now))
          elim [
            | none ↦ λ _ e. (refl, put-Moved arc l key _ h)
            | some (entry p a x) ↦ λ _ e. (refl, unchanged (Unit {0}) _ e)
            | some _ ↦ λ i e. absurd i
          ]
    answer_refines (replace v exp now) =
        asking (Unit {0})
          (λ o. replying done (if_found (do_add_set d key v exp now) (ret (some not_stored)) o))
          (spec d (replace v exp now))
          elim [
            | none ↦ λ _ e. (refl, unchanged (Unit {0}) _ e)
            | some (entry p a x) ↦ λ _ e. (refl, put-Moved arc l key _ h)
            | some _ ↦ λ i e. absurd i
          ]
    answer_refines (update new) =
        asking (Unit {0})
          (λ o.
            replying done
              (if_found (lru_add key (of_entry new) (ret none)) (ret (some not_stored)) o))
          (spec d (update new))
          elim [
            | none ↦ λ _ e. (refl, unchanged (Unit {0}) _ e)
            | some (entry p a x) ↦ λ _ e. (refl, put-Moved arc l key _ h)
            | some _ ↦ λ i e. absurd i
          ]
    answer_refines delete =
        asking ⊥
          (λ o. replying done (if_found (lru_remove key (ret none)) (ret (some cache_miss)) o))
          (spec d delete)
          elim [
            | none ↦ λ _ e. (refl, unchanged ⊥ _ e)
            | some (entry p a x) ↦ λ _ e. (refl, remove-Moved arc l key ⊥ h)
            | some _ ↦ λ i e. absurd i
          ]
    answer_refines (increment n) =
        asking (Unit {0}) (λ o. replying counted (count_found incremented key n o))
          (spec d (increment n)) (count_cases incremented n)
    answer_refines (decrement n) =
        asking (Unit {0}) (λ o. replying counted (count_found decremented key n o))
          (spec d (decrement n)) (count_cases decremented n)

  -- The calls run one after the other, from the end of the list.
  abbrev pub run_calls :
      ℤ → List (Bytes × KeyCall) → Lru → List (Bytes × KeyCall × Outcome Reply) × Lru
  run_calls d [] l = ([], l)
  run_calls d ((key, c) ∷ earlier) l =
      let (replies, l1) = run_calls d earlier l in
      let (r, l2) = run arc (answer d key c) l1 in ((key, c, r) ∷ replies, l2)

  -- Calls of methods that name a key, run one after the other on a cache of entries (the last
  -- stands first in the list), are a history of the reference: with the replies of the reference,
  -- from what the keys held to what they hold then.
  pub run_calls-History :
      (d : ℤ) (calls : List (Bytes × KeyCall)) (l : Lru)
      → HoldsEntries arc l
      → (h : History d (view arc l) (view arc (run_calls d calls l).1)) × (transcript h
          ≡ (run_calls d calls l).0)
        × HoldsEntries arc (run_calls d calls l).1
  run_calls-History d [] l e = (start, refl, e)
  run_calls-History d ((key, c) ∷ earlier) l e =
      let (h, t, i) = run_calls-History d earlier l e in
      let (replies, moved) = answer_refines d (run_calls d earlier l).1 key i c in
      (
        call h key c _ replies moved.at_key moved.elsewhere,
        ap (◌∷◌ (key, c, (run arc (answer d key c) (run_calls d earlier l).1).0)) t,
        moved.holds,
      )
