-- ===== src/Metrics.antt =====
-- src/metrics.rs: metrics in a tree of groups. Groups and values are shared between their handles, so
-- they stand in a store and a handle is a position in it. The children: names (Names), the groups
-- (Groups), labels (Labels), histograms (Histograms), values (Values), and what the handles read (Handles).
pub mod Names
pub mod Grown
pub mod Groups
pub mod Labels
pub mod Histograms
pub mod Handles
pub mod Values
use hotshot_query_service.Prelude.{
  ℕ, Option, none, some, List, [], ◌∷◌, ◌++◌, length, get_elem?, set, Result, ok, err, ◌≡◌, Bool,
}
use hotshot_query_service.FileSystem.Index.{insert_key}
use hotshot_query_service.Metrics.Names.{
  Name, split, join, unwrap_name, Name_discrete, Names_discrete,
}

-- The crate prometheus: its registry, the values of its counters and gauges, and its histograms of
-- samples, which are floating-point numbers. Where it refuses
-- the options of a metric or its registration, the source unwraps the error and panics.
pub record Prometheus : Type 1 where
  pub Registry : Type 0
  pub Value : Type 0
  pub with_opts : (namespace subsystem name help : Name) → Option Value
  pub register : Registry → Value → Option Registry
  pub get : Value → ℕ
  pub inc_by : ℕ → Value → Value
  pub store : ℕ → Value → Value
  pub sub : ℕ → Value → Value
  pub Sample : Type 0
  pub Samples : Type 0
  pub samples_with_opts : (namespace subsystem name help : Name) → Option Samples
  pub register_samples : Registry → Samples → Option Registry
  pub sample_count : Samples → ℕ
  pub sample_sum : Samples → Sample
  pub observe : Sample → Samples → Samples
  pub of_count : ℕ → Sample
  pub divide : Sample → Sample → Sample

-- `prometheus::Opts`
pub record Opts : Type 0 where
  pub namespace : Name
  pub subsystem : Name
  pub name : Name
  pub help : Name

pub data MetricsError : Type 0 where
  no_such_subgroup : List Name → MetricsError
  no_such_metric : List Name → Name → MetricsError

-- What a `PrometheusMetrics` keeps of its own. A metric is the position of its value.
pub record Group : Type 0 where
  pub namespace : List Name
  pub children : Name → Option ℕ
  pub counters : Name → Option ℕ
  pub gauges : Name → Option ℕ
  pub histograms : Name → Option ℕ

-- The store that the handles share, with the labels of the common `Registry`.
pub record Store (P : Prometheus) : Type 0 where
  pub registry : P.Registry
  pub labels : List Name → Option ℕ
  pub groups : List Group
  pub values : List P.Value
  pub samples : List P.Samples
  pub label_values : List Name

unfoldable pub empty_group : List Name → Group
empty_group namespace = record {
  namespace = namespace;
  children = λ _. none;
  counters = λ _. none;
  gauges = λ _. none;
  histograms = λ _. none;
}

unfoldable pub metric_opts : Group → Name → Option Name → Opts
metric_opts self label unit_label = elim self.namespace [
  | [] ↦ record {
    namespace = [];
    subsystem = [];
    name = label;
    help = unwrap_name unit_label label;
  }
  | first ∷ rest ↦ record {
    namespace = first;
    subsystem = join rest;
    name = label;
    help = unwrap_name unit_label label;
  }
]

-- `subgroup_name`'s group, made on first use.
unfoldable pub subgroup : {P : Prometheus} → Store P → ℕ → Group → Name → Store P × ℕ
unfolding empty_group insert_key
subgroup s id self name = elim (self.children name) [
  | some child ↦ (s, child)
  | none ↦
      let child = length s.groups in
      (
        record s {
          groups =
              set s.groups id
                (record self { children = insert_key Name_discrete name child self.children })
              ++ (empty_group (self.namespace ++ (name ∷ [])) ∷ []);
        },
        child,
      )
]

unfoldable pub child_of : {P : Prometheus} → Store P → ℕ → Name → Option ℕ
child_of s id name = elim (get_elem? s.groups id) [ some self ↦ self.children name | none ↦ none ]

unfoldable pub namespace_of : {P : Prometheus} → Store P → ℕ → List Name
namespace_of s id = elim (get_elem? s.groups id) [ some self ↦ self.namespace | none ↦ [] ]

unfoldable pub get_subgroup : {P : Prometheus} → Store P → ℕ → List Name → Result MetricsError ℕ
unfolding child_of namespace_of
get_subgroup s curr [] = ok curr
get_subgroup s curr (seg ∷ path) = elim (child_of s curr seg) [
  | some next ↦ get_subgroup s next path
  | none ↦ err (no_such_subgroup (namespace_of s curr ++ (seg ∷ [])))
]

abbrev pub get_metric : Group → (Name → Option ℕ) → Name → Result MetricsError ℕ
get_metric self metrics label = elim (metrics label) [
  | some metric ↦ ok metric
  | none ↦ err (no_such_metric self.namespace label)
]

unfoldable pub get_counter : Group → Name → Result MetricsError ℕ
get_counter self label = get_metric self self.counters label

unfoldable pub get_gauge : Group → Name → Result MetricsError ℕ
get_gauge self label = get_metric self self.gauges label

module _ (P : Prometheus) where
  -- `Counter::new` and `Gauge::new`; none where they panic.
  unfoldable pub new_metric : Store P → Opts → Option (Store P × ℕ)
  new_metric s opts = elim (P.with_opts opts.namespace opts.subsystem opts.name opts.help) [
    | none ↦ none
    | some value ↦ elim (P.register s.registry value) [
      | none ↦ none
      | some registry ↦
          some
            (record s { registry = registry; values = s.values ++ (value ∷ []) }, length s.values)
    ]
  ]

  unfoldable pub create_counter : Store P → ℕ → Group → Name → Option Name → Option (Store P × ℕ)
  unfolding new_metric metric_opts insert_key
  create_counter s id self label unit_label =
      elim (new_metric s (metric_opts self label unit_label)) [
        | none ↦ none
        | some (s', counter) ↦ some (
          record s' {
            groups =
                set s'.groups id
                  (record self { counters = insert_key Name_discrete label counter self.counters });
          },
          counter,
        )
      ]

  unfoldable pub create_gauge : Store P → ℕ → Group → Name → Option Name → Option (Store P × ℕ)
  unfolding new_metric metric_opts insert_key
  create_gauge s id self label unit_label =
      elim (new_metric s (metric_opts self label unit_label)) [
        | none ↦ none
        | some (s', gauge) ↦ some (
          record s' {
            groups =
                set s'.groups id
                  (record self { gauges = insert_key Name_discrete label gauge self.gauges });
          },
          gauge,
        )
      ]
