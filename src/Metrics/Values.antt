-- ===== src/Metrics/Values.antt =====
-- The values of counters and gauges, as their handles read and change them.
use hotshot_query_service.Prelude.{ℕ, Option, none, some, get_elem?, set, ◌%◌, ◌^◌, suc}
use hotshot_query_service.Metrics.{Prometheus, Store}

-- An `i64`.
pub data ℤ : Type 0 where
  pos : ℕ → ℤ
  negsuc : ℕ → ℤ

module _ {P : Prometheus} where
  -- A change of the value behind a handle.
  abbrev pub modify : Store P → ℕ → (P.Value → P.Value) → Store P
  modify s metric f = elim (get_elem? s.values metric) [
    | some value ↦ record s { values = set s.values metric (f value) }
    | none ↦ s
  ]

  unfoldable pub value_of : Store P → ℕ → Option ℕ
  value_of s metric = elim (get_elem? s.values metric) [
    | some value ↦ some (P.get value)
    | none ↦ none
  ]

  -- `Counter::add`
  unfoldable pub counter_add : Store P → ℕ → ℕ → Store P
  counter_add s counter amount = modify s counter (P.inc_by (amount % 2 ^ 64))

  -- `Gauge::set`
  unfoldable pub gauge_set : Store P → ℕ → ℕ → Store P
  gauge_set s gauge amount = modify s gauge (P.store (amount % 2 ^ 64))

  -- `Gauge::update`
  unfoldable pub gauge_update : Store P → ℕ → ℤ → Store P
  gauge_update s gauge (pos delta) = modify s gauge (P.inc_by delta)
  gauge_update s gauge (negsuc n) = modify s gauge (P.sub (suc n))
