-- ===== src/Status.antt =====
-- The status API: `StatusDataSource` of src/status/data_source.rs, the data source on metrics of
-- src/data_source/metrics.rs, and the errors and handlers of src/status.rs.
pub mod Height
pub mod Routes
use hotshot_query_service.Prelude.{
  ℕ, Option, none, some, List, [], ◌∷◌, Result, ok, err, ◌>>=◌, map_err, ◌==◌, if◌then◌else◌,
  get_elem?,
}
use Prim.Native.String.{String}
use hotshot_query_service.Errors.{
  QueryError, QueryResult, failure, StatusCode, bad_request, internal_server_error,
}
use hotshot_query_service.Metrics.{
  Prometheus, Store, Group, MetricsError, no_such_metric, subgroup, get_subgroup, get_gauge,
  empty_group,
}
use hotshot_query_service.Metrics.Names.{Name}
use hotshot_query_service.Metrics.Values.{value_of}

-- `MempoolQueryData`
pub record MempoolQueryData : Type 0 where
  pub transaction_count : ℕ
  pub memory_footprint : ℕ

-- `R` is `tide_disco::RequestError`. An internal error keeps the error of the data source where the
-- source keeps its text.
pub data Error (R : Type 0) : Type 0 where
  request : R → Error R
  internal : QueryError → Error R

unfoldable pub status : {R : Type 0} → Error R → StatusCode
status (request r) = bad_request
status (internal e) = internal_server_error

-- The names `consensus` and of its gauges, which stand for their characters.
pub record StatusNames : Type 0 where
  pub consensus : Name
  pub last_synced_block_height : Name
  pub outstanding_transactions : Name
  pub outstanding_transactions_memory_size : Name
  pub current_view : Name

unfoldable pub metrics_err : (MetricsError → String) → MetricsError → QueryError
metrics_err to_string e = failure (to_string e)

module _ {P : Prometheus} (names : StatusNames) (to_string : MetricsError → String) where
  -- The metrics are the group `self` of the store.
  unfoldable pub consensus_metrics : Store P → ℕ → QueryResult ℕ
  unfolding get_subgroup metrics_err
  consensus_metrics s self =
      map_err (metrics_err to_string) (get_subgroup s self (names.consensus ∷ []))

  -- A group that is not in the store has no metrics.
  abbrev pub group_at : Store P → ℕ → Group
  group_at s id = elim (get_elem? s.groups id) [ some group ↦ group | none ↦ empty_group [] ]

  -- `get_gauge(label)?.get()` on the consensus metrics.
  unfoldable pub consensus_gauge : Store P → ℕ → Name → QueryResult ℕ
  unfolding consensus_metrics get_gauge value_of empty_group
  consensus_gauge s self label = do
    group ← consensus_metrics s self
    gauge ← map_err (metrics_err to_string) (get_gauge (group_at s group) label)
    elim (value_of s gauge) [
      | some n ↦ ok n
      | none ↦ err (metrics_err to_string (no_such_metric (group_at s group).namespace label))
    ]

  unfoldable pub mempool_info : Store P → ℕ → QueryResult MempoolQueryData
  unfolding consensus_gauge
  mempool_info s self = do
    transaction_count ← consensus_gauge s self names.outstanding_transactions
    memory_footprint ← consensus_gauge s self names.outstanding_transactions_memory_size
    ok (record { transaction_count = transaction_count; memory_footprint = memory_footprint })

  -- The quotient that `success_rate` returns, as its two numbers.
  unfoldable pub success_rate : Store P → ℕ → QueryResult ℕ → QueryResult (ℕ × ℕ)
  unfolding consensus_gauge
  success_rate s self block_height = do
    total_views ← consensus_gauge s self names.current_view
    height ← block_height
    ok (height, total_views)

  -- `block_height` of the data source on metrics. The genesis block counts before any decision.
  unfoldable pub metrics_height : Store P → ℕ → QueryResult ℕ
  unfolding consensus_gauge
  metrics_height s self = do
    last_synced_height ← consensus_gauge s self names.last_synced_block_height
    ok (if last_synced_height == 0 then 1 else last_synced_height)

  -- `populate_metrics`
  unfoldable pub populate_metrics : Store P → ℕ → Store P × ℕ
  unfolding subgroup empty_group
  populate_metrics s self = subgroup s self (group_at s self) names.consensus

-- A handler: the answer of the data source, with an error as an internal one.
unfoldable pub status_response : {R A : Type 0} → QueryResult A → Result (Error R) A
status_response res = map_err internal res
