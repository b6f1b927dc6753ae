-- ===== src/Metrics/Counts.antt =====
-- metrics.go: the calls that count and observe. The vector of counters, the summary and the floats
-- of Go are parameters, as is the time that has passed since the start.
use mathlib.Core.Bool.{true≢false}
use go_cache.Prelude.{
  if◌then◌else◌, bytes_eq, bytes_eq_iff, Bool-cases, inl, inr, ap, sym, ◌∙◌, ℕ, ◌+◌, ◌≡◌, ◌≢◌, refl,
  Option, none, some, List, [], ◌∷◌, Bytes, arith,
}
use go_cache.Prelude.Int.{ℤ, pos}
use go_cache.Clock.{second}

-- `prometheus.CounterVec` with one label: the counter of a value of the label, and `Inc` of it.
pub record CounterVec : Type 1 where
  pub Counters : Type 0
  pub value : Counters → Bytes → ℕ
  pub inc : Bytes → Counters → Counters
  pub value-inc : (l : Bytes) (c : Counters) → value (inc l c) l ≡ 1 + value c l
  pub value-inc_other : (l m : Bytes) (c : Counters) → l ≢ m → value (inc l c) m ≡ value c m

-- `prometheus.Summary`, and the floats that it observes.
pub record Summary : Type 1 where
  pub Observed : Type 0
  pub Float : Type 0
  pub float64 : ℤ → Float
  pub divide : Float → Float → Float
  pub observe : Float → Observed → Observed

module _ (vec : CounterVec) (decimal : ℤ → Bytes) where
  open vec use {Counters, value, inc}

  -- Without a vector nothing is counted.
  unfoldable pub increment_counter_vec : Option Counters → ℤ → Option Counters
  increment_counter_vec none status_code = none
  increment_counter_vec (some c) status_code = some (inc (decimal status_code) c)

unfoldable pub observe_summary : (s : Summary) → s.Observed → ℤ → s.Observed
observe_summary s o elapsed = s.observe (s.divide (s.float64 elapsed) (s.float64 (pos second))) o

module _ (vec : CounterVec) (decimal : ℤ → Bytes) where
  open vec use {Counters, value}

  -- Status codes that are counted one after the other, the last first.
  count_all : List ℤ → Option Counters → Option Counters
  count_all [] c = c
  count_all (status_code ∷ earlier) c =
      increment_counter_vec vec decimal (count_all earlier c) status_code

  counts : Bytes → Bytes → ℕ
  counts k l = if bytes_eq k l then 1 else 0

  times : Bytes → List ℤ → ℕ
  times l [] = 0
  times l (status_code ∷ earlier) = counts (decimal status_code) l + times l earlier

  value-counts : (k l : Bytes) (c : Counters) → value (vec.inc k c) l ≡ counts k l + value c l
  unfolding counts
  value-counts k l c = elim (Bool-cases (bytes_eq k l)) [
    | inl same ↦
        let e = (bytes_eq_iff k l).0 same in
        rw (same, counts)
          (ap (λ m. value (vec.inc k c) m) (sym e) ∙ vec.value-inc k c ∙ ap (λ m. 1 + value c m) e)
    | inr other ↦
        let apart =
          vec.value-inc_other k l c λ e. true≢false (sym ((bytes_eq_iff k l).1 e) ∙ other) in
        rw (other, counts) (omega arith)
  ]

  -- Each text of a status code has counted as often as it came; without a vector nothing has.
  value-count_all :
      (status_codes : List ℤ) (c : Counters)
      → ((c' : Counters) × (count_all status_codes (some c) ≡ some c')
          × ((l : Bytes) → value c' l ≡ times l status_codes + value c l))
        × (count_all status_codes none ≡ none)
  unfolding count_all times increment_counter_vec
  value-count_all [] c = ((c, refl, λ l. omega arith), refl)
  value-count_all (status_code ∷ earlier) c =
      let ((c', counted, before), without) = value-count_all earlier c in
      (
        (
          vec.inc (decimal status_code) c',
          rw counted refl,
          λ l. rw (value-counts (decimal status_code) l c') (rw (before l) (omega arith)),
        ),
        rw without refl,
      )
