-- ===== src/Metrics/Taken.antt =====
-- Two in-memory stores with a gauge under one label (inmemory.go, metrics.go).
use go_cache.Prelude.{ℕ, ◌≡◌, refl, none, some, Bytes, true}
use go_cache.Prelude.Int.{ℤ, pos, ◌≤ℤ◌}
use go_cache.Lru.{Arc}
use go_cache.Janitor.{NewStore, over_lru, gauge_label, new_in_memory_store}
use go_cache.Metrics.{
  Prometheus, gauge_func, Collector, go_cache_opts, help_of, init_gauge_with_func, items,
  new_metered_store,
}

module _ (arc : Arc) (p : Prometheus ((ℕ → arc.Lru) → ℕ)) (label : Bytes) where
  abbrev pub gauge_of : ℕ → Collector ((ℕ → arc.Lru) → ℕ)
  gauge_of i =
      gauge_func (go_cache_opts (gauge_label arc label) (help_of (gauge_label arc label)))
        (items arc p i)

  made :
      (i : ℕ) (n d t : ℤ) (r : p.Registry)
      → pos 1 ≤ℤ n
      → (s : NewStore arc) × (new_metered_store arc p i n d t true label r
          ≡ (some s, (p.register (gauge_of i) r).1))
  unfolding new_metered_store new_in_memory_store init_gauge_with_func
  made i n d t r h =
      let (l, new) = arc.new_arc-positive n h in
      (over_lru arc l d t true label, rw (new, new_metered_store) refl)

  -- A second store with a gauge under the label of a first one, whose gauge was registered, is made
  -- without an error, but no gauge of its own is: the registry stays as it was, and under the label
  -- it goes on to count the items of the first store.
  pub second_gauge :
      (i j : ℕ) (n d t n2 d2 t2 : ℤ) (r : p.Registry)
      → pos 1 ≤ℤ n
      → pos 1 ≤ℤ n2
      → (p.register (gauge_of i) r).0 ≡ none
      → let (s1, r1) = new_metered_store arc p i n d t true label r in
        let (s2, r2) = new_metered_store arc p j n2 d2 t2 true label r1 in
        ((s : NewStore arc) × (s1 ≡ some s))
        × ((s : NewStore arc) × (s2 ≡ some s))
        × (r2 ≡ r1)
        × (p.find r2 (
              p.full_name (go_cache_opts (gauge_label arc label) (help_of (gauge_label arc label))))
            ≡ some (gauge_of i))
  second_gauge i j n d t n2 d2 t2 r h h2 accepted =
      let found = p.find-register (gauge_of i) r accepted in
      let r1 = (p.register (gauge_of i) r).1 in
      let (s1, first) = made i n d t r h in
      let (s2, second) = made j n2 d2 t2 r1 h2 in
      let (e, refused) = p.register-taken (gauge_of i) (gauge_of j) r1 found in
      rw first (rw second ((s1, refl), (s2, refl), rw refused refl, rw refused found))
