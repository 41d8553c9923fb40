-- ===== src/Api.antt =====
-- The availability API of src/availability.rs: the errors with their status codes (Errors), the
-- interface `AvailabilityDataSource` and the handlers (Handlers), and what a request for a
-- transaction ends with (Transactions).
pub mod Errors
pub mod Handlers
pub mod Routes
pub mod Transactions
use hotshot_query_service.Prelude.{ℕ, Option, List, map, ok, ◌>>=◌}
use hotshot_query_service.NodeTypes.{NodeTypes}
use hotshot_query_service.Errors.{QueryResult}
use hotshot_query_service.LedgerLog.Defs.{Subscription, received}
use hotshot_query_service.Availability.QueryData.{LeafQueryData, BlockQueryData}
use hotshot_query_service.FileSystem.Range.{Bound}
use hotshot_query_service.FileSystem.Defs.{ResourceId, Storage, FileSystemDataSource}
use hotshot_query_service.FileSystem.Queries.{
  get_leaf, get_block, get_leaf_range, get_block_range, get_block_with_transaction, get_proposals,
  count_proposals, subscribe_leaves, subscribe_blocks,
}

-- What a stream of a data source yields, given the objects that are broadcast.
abbrev pub Stream : Type 0 → Type 0
Stream T = List T → List (QueryResult T)

-- The stream of a subscription, on which nothing fails.
unfoldable pub yields : {T : Type 0} → Subscription T → Stream T
unfolding received
yields sub sent = map (λ x. ok x) (received sub sent)

-- The queries that a data source with the state `D` answers; a query that panics has no value here.
pub record AvailabilityDataSource (N : NodeTypes) (D : Type 0) : Type 0 where
  pub source_leaf : D → ResourceId N.LeafHash → QueryResult (LeafQueryData N)
  pub source_block : D → ResourceId N.BlockHash → QueryResult (BlockQueryData N)
  pub leaf_range : D → Bound → Bound → QueryResult (List (QueryResult (LeafQueryData N)))
  pub block_range : D → Bound → Bound → QueryResult (List (QueryResult (BlockQueryData N)))
  pub block_with_transaction :
      D → N.TransactionHash → QueryResult (BlockQueryData N × N.TransactionIndex)
  pub proposals : D → N.EncodedPublicKey → Option ℕ → QueryResult (List (LeafQueryData N))
  pub proposal_count : D → N.EncodedPublicKey → QueryResult ℕ
  pub leaf_stream : D → ℕ → QueryResult (Stream (LeafQueryData N))
  pub block_stream : D → ℕ → QueryResult (Stream (BlockQueryData N))

abbrev pub map_value : {A B : Type 0} → (A → B) → QueryResult A → QueryResult B
map_value f r = do a ← r; ok (f a)

-- The data source on files.
abbrev pub file_queries :
    (N : NodeTypes) {E : Type 0} (S : Storage N E)
    → AvailabilityDataSource N (FileSystemDataSource N S)
file_queries N S = record {
  source_leaf = get_leaf N S;
  source_block = get_block N S;
  leaf_range = λ ds start end. ok (get_leaf_range N S ds start end);
  block_range = λ ds start end. ok (get_block_range N S ds start end);
  block_with_transaction = get_block_with_transaction N S;
  proposals = get_proposals N S;
  proposal_count = λ ds id. ok (count_proposals N S ds id);
  leaf_stream = λ ds height. map_value yields (subscribe_leaves N S ds height);
  block_stream = λ ds height. map_value yields (subscribe_blocks N S ds height);
}
