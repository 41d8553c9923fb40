-- ===== src/Metrics/Histograms.antt =====
-- The histograms of src/metrics.rs.
use hotshot_query_service.Prelude.{
  ℕ, Option, none, some, [], ◌∷◌, ◌++◌, length, get_elem?, set, Result, map_option,
}
use hotshot_query_service.FileSystem.Index.{insert_key}
use hotshot_query_service.Metrics.{
  Prometheus, Store, Group, Opts, MetricsError, metric_opts, get_metric,
}
use hotshot_query_service.Metrics.Names.{Name, Name_discrete}

unfoldable pub get_histogram : Group → Name → Result MetricsError ℕ
get_histogram self label = get_metric self self.histograms label

module _ (P : Prometheus) where
  -- `Histogram::new`; none where it panics.
  unfoldable pub new_histogram : Store P → Opts → Option (Store P × ℕ)
  new_histogram s opts =
      elim (P.samples_with_opts opts.namespace opts.subsystem opts.name opts.help) [
        | none ↦ none
        | some samples ↦ elim (P.register_samples s.registry samples) [
          | none ↦ none
          | some registry ↦ some (
            record s { registry = registry; samples = s.samples ++ (samples ∷ []) },
            length s.samples,
          )
        ]
      ]

  unfoldable pub create_histogram : Store P → ℕ → Group → Name → Option Name → Option (Store P × ℕ)
  unfolding new_histogram metric_opts insert_key
  create_histogram s id self label unit_label =
      elim (new_histogram s (metric_opts self label unit_label)) [
        | none ↦ none
        | some (s', histogram) ↦ some (
          record s' {
            groups = set s'.groups id (record self {
              histograms = insert_key Name_discrete label histogram self.histograms;
            });
          },
          histogram,
        )
      ]

  -- `Histogram::sample_count`, `Histogram::sum` and `Histogram::mean`
  unfoldable pub sample_count : Store P → ℕ → Option ℕ
  sample_count s histogram = map_option P.sample_count (get_elem? s.samples histogram)

  unfoldable pub sum : Store P → ℕ → Option P.Sample
  sum s histogram = map_option P.sample_sum (get_elem? s.samples histogram)

  unfoldable pub mean : Store P → ℕ → Option P.Sample
  unfolding sample_count sum
  mean s histogram = elim (sum s histogram) [
    | none ↦ none
    | some total ↦ map_option (λ n. P.divide total (P.of_count n)) (sample_count s histogram)
  ]

  -- `Histogram::add_point`
  unfoldable pub add_point : Store P → ℕ → P.Sample → Store P
  add_point s histogram point = elim (get_elem? s.samples histogram) [
    | some samples ↦ record s { samples = set s.samples histogram (P.observe point samples) }
    | none ↦ s
  ]
