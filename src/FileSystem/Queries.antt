-- ===== src/FileSystem/Queries.antt =====
-- The queries of `FileSystemDataSource` (src/data_source/fs.rs, `AvailabilityDataSource`).
use hotshot_query_service.Prelude.{
  ℕ, Option, none, some, List, [], ◌∷◌, length, drop, ◌-◌, ok, ◌>>=◌, context,
}
use hotshot_query_service.NodeTypes.{NodeTypes}
use hotshot_query_service.Errors.{QueryResult, not_found_error, missing}
use hotshot_query_service.LedgerLog.Iter.{nth}
use hotshot_query_service.LedgerLog.Defs.{LedgerLog, Subscription, iter, subscribe}
use hotshot_query_service.AppendLog.{AppendLog}
use hotshot_query_service.Availability.QueryData.{LeafQueryData, BlockQueryData}
use hotshot_query_service.FileSystem.Range.{Bound, range_stream}
use hotshot_query_service.FileSystem.Defs.{Storage, ResourceId, number, hash, FileSystemDataSource}

-- `ResourceId` to a position.
unfoldable pub resolve : {H : Type 0} → (H → Option ℕ) → ResourceId H → QueryResult ℕ
resolve index (number n) = ok n
resolve index (hash h) = context not_found_error (index h)

-- `iter().nth(n)`, where an object that is not there is not found and a placeholder is missing.
unfoldable pub read_at : {E T : Type 0} (L : AppendLog E T) → LedgerLog L → ℕ → QueryResult T
unfolding iter nth
read_at L log n = do entry ← context not_found_error (nth (iter L log) n).0; context missing entry

-- `try_collect`
unfoldable pub try_collect : {A : Type 0} → List (QueryResult A) → QueryResult (List A)
try_collect [] = ok []
try_collect (r ∷ rs) = let rest = try_collect rs in do a ← r; as' ← rest; ok (a ∷ as')

module _ (N : NodeTypes) {E : Type 0} (S : Storage N E) (ds : FileSystemDataSource N S) where
  unfoldable pub get_leaf : ResourceId N.LeafHash → QueryResult (LeafQueryData N)
  unfolding resolve read_at
  get_leaf id = do n ← resolve ds.index_by_leaf_hash id; read_at S.leaves ds.leaf_storage n

  unfoldable pub get_block : ResourceId N.BlockHash → QueryResult (BlockQueryData N)
  unfolding resolve read_at
  get_block id = do n ← resolve ds.index_by_block_hash id; read_at S.blocks ds.block_storage n

  unfoldable pub get_leaf_range : Bound → Bound → List (QueryResult (LeafQueryData N))
  unfolding range_stream iter
  get_leaf_range start end = range_stream (iter S.leaves ds.leaf_storage) start end

  unfoldable pub get_block_range : Bound → Bound → List (QueryResult (BlockQueryData N))
  unfolding range_stream iter
  get_block_range start end = range_stream (iter S.blocks ds.block_storage) start end

  unfoldable pub get_block_with_transaction :
      N.TransactionHash → QueryResult (BlockQueryData N × N.TransactionIndex)
  unfolding get_block
  get_block_with_transaction h = do
    (height, ix) ← context not_found_error (ds.index_by_txn_hash h)
    block ← get_block (number height)
    ok (block, ix)

  -- The heights of the leaves of a proposer, in the order of insertion.
  unfoldable pub proposals_of : N.EncodedPublicKey → List ℕ
  proposals_of id = elim (ds.index_by_proposer_id id) [ some ids ↦ ids | none ↦ [] ]

  unfoldable pub start_from : List ℕ → Option ℕ → ℕ
  start_from all_ids (some count) = length all_ids - count
  start_from all_ids none = 0

  unfoldable pub get_leaves : List ℕ → List (QueryResult (LeafQueryData N))
  unfolding get_leaf
  get_leaves [] = []
  get_leaves (height ∷ heights) = get_leaf (number height) ∷ get_leaves heights

  unfoldable pub get_proposals :
      N.EncodedPublicKey → Option ℕ → QueryResult (List (LeafQueryData N))
  unfolding proposals_of start_from get_leaves try_collect
  get_proposals id limit =
      let all_ids = proposals_of id in
      try_collect (get_leaves (drop (start_from all_ids limit) all_ids))

  unfoldable pub count_proposals : N.EncodedPublicKey → ℕ
  count_proposals id = elim (ds.index_by_proposer_id id) [ some ids ↦ length ids | none ↦ 0 ]

  unfoldable pub subscribe_leaves : ℕ → QueryResult (Subscription (LeafQueryData N))
  unfolding subscribe
  subscribe_leaves height = context missing (subscribe S.leaves ds.leaf_storage height)

  unfoldable pub subscribe_blocks : ℕ → QueryResult (Subscription (BlockQueryData N))
  unfolding subscribe
  subscribe_blocks height = context missing (subscribe S.blocks ds.block_storage height)
