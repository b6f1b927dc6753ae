-- ===== src/InMemory/Reference/Moved.antt =====
-- How the cached entries change by one step of code over the LRU library (inmemory.go).
use go_cache.Prelude.{◌≡◌, ◌≢◌, refl, sym, ap, ◌∙◌, subst, inl, inr, ◌⊎◌, Option, none, some, Bytes}
use go_cache.Value.{Value, entry, GenericCacheEntry, of_entry, IsEntryIfAny}
use go_cache.Lru.{Arc}
use go_cache.Lru.Run.{HoldsEntries, add-HoldsEntries, remove-HoldsEntries}
use go_cache.InMemory.Reference.{Cell}

-- The cell that a cached value stands for.
abbrev pub to_cell : Option Value → Cell
to_cell none = none
to_cell (some (entry d a x)) = some (record { payload = d; time_added = a; expires_at = x })
to_cell (some _) = none

module _ (arc : Arc) where
  open arc use {Lru, peek}

  abbrev pub view : Lru → Bytes → Cell
  view l key = to_cell (peek l key)

  -- From one state of the cache to a later one: what a key holds then, and that any other key
  -- holds what it did, or nothing if it may have been evicted.
  pub record Moved (l : Lru) (key : Bytes) (MayEvict : Type 0) (c : Cell) (l' : Lru) : Type 0 where
    pub at_key : view l' key ≡ c
    pub elsewhere : (j : Bytes) → key ≢ j → (view l' j ≡ view l j) ⊎ (MayEvict × (view l' j ≡ none))
    pub holds : HoldsEntries arc l'

  module _ (l : Lru) (key : Bytes) (E : Type 0) (h : HoldsEntries arc l) where
    view_get : (j : Bytes) → view (arc.get l key).1 j ≡ view l j
    view_get j = ap to_cell (arc.peek-get l key j)

    holds_get : HoldsEntries arc (arc.get l key).1
    holds_get j = subst IsEntryIfAny (sym (arc.peek-get l key j)) (h j)

    pub get-Moved : Moved l key E (view l key) (arc.get l key).1
    get-Moved = record {
      at_key = view_get key;
      elsewhere = λ j n. inl (view_get j);
      holds = holds_get;
    }

    pub remove-Moved : Moved l key E none (arc.remove (arc.get l key).1 key)
    remove-Moved = record {
      at_key = ap to_cell (arc.peek-remove_self (arc.get l key).1 key);
      elsewhere =
          λ j n. inl (ap to_cell (arc.peek-remove_ne (arc.get l key).1 key j n) ∙ view_get j);
      holds = remove-HoldsEntries arc (arc.get l key).1 key holds_get;
    }

  module _ (l l1 : Lru) (key : Bytes) (h : HoldsEntries arc l1) (e : GenericCacheEntry) where
    pub add-Moved :
        ((j : Bytes) → view l1 j ≡ view l j)
        → Moved l key (Unit {0}) (some e) (arc.add l1 key (of_entry e))
    add-Moved same = record {
      at_key = ap to_cell (arc.peek-add_self l1 key (of_entry e));
      elsewhere = λ j n. elim (arc.peek-add_ne l1 key j (of_entry e) n) [
        | inl kept ↦ inl (ap to_cell kept ∙ same j)
        | inr gone ↦ inr (tt, ap to_cell gone)
      ];
      holds = add-HoldsEntries arc l1 key (of_entry e) tt h;
    }

  pub set-Moved :
      (l : Lru) (key : Bytes) (e : GenericCacheEntry)
      → HoldsEntries arc l
      → Moved l key (Unit {0}) (some e) (arc.add l key (of_entry e))
  set-Moved l key e h = add-Moved l l key h e (λ j. refl)

  pub put-Moved :
      (l : Lru) (key : Bytes) (e : GenericCacheEntry)
      → HoldsEntries arc l
      → Moved l key (Unit {0}) (some e) (arc.add (arc.get l key).1 key (of_entry e))
  put-Moved l key e h =
      add-Moved l (arc.get l key).1 key (holds_get l key (Unit {0}) h) e
        (view_get l key (Unit {0}) h)
