-- ===== src/Tests/Services.antt =====
-- The theorems on extended data sources and on the status API, applied to concrete data.
use hotshot_query_service.Prelude.{refl, ◌^◌, ◌-◌, ℕ, none, [], ◌∷◌, ◌≡◌, some}
use hotshot_query_service.Channel
use hotshot_query_service.Channel.{BufferedChannel, flush, clear}
use hotshot_query_service.Channel.Delivery.{push_all, flush-delivers}
use hotshot_query_service.Extension.{new, extended_versions}
use hotshot_query_service.Extension.Served.{serve-beside}
use hotshot_query_service.FileSystem.Defs.{FileSystemDataSource, empty_source}
use hotshot_query_service.LedgerLog.Defs.{opened}
use hotshot_query_service.Metrics.Handles.{
  PrometheusLaws, calls, shift, assign, replay, value_of-calls,
}
use hotshot_query_service.Metrics.Values.{pos, negsuc, value_of}
use hotshot_query_service.Metrics.{Store}
use hotshot_query_service.Metrics.Names.{Name_discrete}
use hotshot_query_service.FileSystem.Index.{insert_key}
use hotshot_query_service.Status.{StatusNames}
use hotshot_query_service.Tests.{numbers, memory_storage, plain_metrics}
use hotshot_query_service.Update.{decide}
use hotshot_query_service.Update.Service.{files, serve}

abbrev ds : FileSystemDataSource numbers memory_storage
ds =
    empty_source numbers memory_storage (opened memory_storage.leaves ([], []) 100)
      (opened memory_storage.blocks ([], []) 100)

serve-beside_example :
    serve numbers
      (extended_versions {U = ℕ} numbers (files numbers memory_storage))
      (decide (2 ∷ 1 ∷ []) 2 ∷ [])
      (new ds 5)
    ≡ (
      new (serve numbers (files numbers memory_storage) (decide (2 ∷ 1 ∷ []) 2 ∷ []) ds).0 5,
      (serve numbers (files numbers memory_storage) (decide (2 ∷ 1 ∷ []) 2 ∷ []) ds).1,
    )
serve-beside_example =
    serve-beside numbers (files numbers memory_storage) 5 (decide (2 ∷ 1 ∷ []) 2 ∷ []) ds

abbrev names : StatusNames
names = record {
  consensus = 1 ∷ [];
  last_synced_block_height = 2 ∷ [];
  outstanding_transactions = 3 ∷ [];
  outstanding_transactions_memory_size = 4 ∷ [];
  current_view = 5 ∷ [];
}

-- A group of consensus metrics with the height gauge at 0.
abbrev metrics : Store plain_metrics
metrics = record {
  registry = tt;
  labels = λ _. none;
  groups =
      record {
        namespace = [];
        children = insert_key Name_discrete (1 ∷ []) 1 (λ _. none);
        counters = λ _. none;
        gauges = λ _. none;
        histograms = λ _. none;
      }
      ∷ record {
        namespace = (1 ∷ []) ∷ [];
        children = λ _. none;
        counters = λ _. none;
        gauges = insert_key Name_discrete (2 ∷ []) 0 (λ _. none);
        histograms = λ _. none;
      }
      ∷ [];
  values = 0 ∷ [];
  samples = [];
  label_values = [];
}

-- A channel with a message pending, after another has been broadcast.
abbrev channel : BufferedChannel ℕ
channel = record { pending = 1 ∷ []; sent = 9 ∷ [] }

flush-delivers_example :
    (Channel.received (Channel.subscribe channel) (push_all (2 ∷ 3 ∷ []) channel) ≡ [])
    × (Channel.received (Channel.subscribe channel) (flush (push_all (2 ∷ 3 ∷ []) channel))
        ≡ 1 ∷ 2 ∷ 3 ∷ [])
    × (Channel.received (Channel.subscribe channel) (flush (push_all (2 ∷ 3 ∷ []) (clear channel)))
        ≡ 2 ∷ 3 ∷ [])
    × ((flush (push_all (2 ∷ 3 ∷ []) channel)).pending ≡ [])
flush-delivers_example = flush-delivers channel (2 ∷ 3 ∷ [])

abbrev plain_laws : PrometheusLaws plain_metrics
plain_laws = record { get-inc_by = λ n v. refl; get-store = λ n v. refl; get-sub = λ n v. refl }

-- Two gauges, the first of which goes up and below zero.
abbrev gauges : Store plain_metrics
gauges = record metrics { values = 7 ∷ 9 ∷ [] }

value_of-calls_example :
    value_of (calls gauges (shift 0 (pos 3) ∷ assign 1 4 ∷ shift 0 (negsuc 10) ∷ [])) 0
    ≡ some (2 ^ 64 - 1)
unfolding replay value_of
value_of-calls_example =
    value_of-calls plain_laws gauges (shift 0 (pos 3) ∷ assign 1 4 ∷ shift 0 (negsuc 10) ∷ []) 0
