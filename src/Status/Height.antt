-- ===== src/Status/Height.antt =====
-- The block height that the data source on metrics reports.
use hotshot_query_service.Prelude.{
  if◌then◌else◌, ℕ, ◌<◌, ok, err, ◌≡◌, refl, arith, Result-cases, inl, inr, ◌⊎◌, ◌==◌,
}
use Prim.Native.String.{String}
use hotshot_query_service.Metrics.{Prometheus, Store, MetricsError}
use hotshot_query_service.Status.{StatusNames, consensus_gauge, metrics_height, QueryError}

at_least_one : (n : ℕ) → 0 < (if n == 0 then 1 else n)
at_least_one n = ground arith

module _ {P : Prometheus} (names : StatusNames) (to_string : MetricsError → String) where
  -- The block height that the data source on metrics reports is positive; where it reports an
  -- error instead, that is the error of reading the gauge.
  pub metrics_height-positive :
      (s : Store P) (self : ℕ)
      → ((n : ℕ) × (metrics_height names to_string s self ≡ ok n) × (0 < n))
        ⊎ ((e : QueryError) × (metrics_height names to_string s self ≡ err e)
            × (consensus_gauge names to_string s self names.last_synced_block_height ≡ err e))
  unfolding metrics_height
  metrics_height-positive s self =
      elim (Result-cases (consensus_gauge names to_string s self names.last_synced_block_height)) [
        | inl (n, e) ↦ inl (if n == 0 then 1 else n, rw (e, metrics_height) refl, at_least_one n)
        | inr (x, e) ↦ inr (x, rw (e, metrics_height) refl, e)
      ]
