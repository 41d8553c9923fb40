-- ===== src/Api/Handlers.antt =====
-- The handlers of `define_api` in src/availability.rs.
use hotshot_query_service.Prelude.{
  ℕ, Option, none, some, List, Result, ok, ◌>>=◌, map_err, context, Fault, error, panic, map,
}
use hotshot_query_service.NodeTypes.{NodeTypes}
use hotshot_query_service.Errors.{QueryResult}
use hotshot_query_service.Availability.Payload
use hotshot_query_service.Availability.QueryData.{
  LeafQueryData, BlockQueryData, TransactionQueryData, block_transaction,
}
use hotshot_query_service.FileSystem.Defs.{ResourceId, number, hash}
use hotshot_query_service.Api.{AvailabilityDataSource, Stream}
use hotshot_query_service.Api.Errors.{
  Error, request, query_leaf, query_block, query_transaction, query_proposals,
  invalid_transaction_index, leaf_stream, block_stream, stream_block,
}

-- The parameters of a request, as the framework parses them (`RequestParams` of tide_disco).
pub record RequestParams (N : NodeTypes) (R : Type 0) : Type 0 where
  pub opt_height : Result R (Option ℕ)
  pub height : Result R ℕ
  pub index : Result R ℕ
  pub opt_count : Result R (Option ℕ)
  pub leaf_hash : Result R N.LeafHash
  pub block_hash : Result R N.BlockHash
  pub opt_transaction_hash : Result R (Option N.TransactionHash)
  pub proposer_id : Result R N.EncodedPublicKey

module _ (N : NodeTypes) {D R : Type 0} (source : AvailabilityDataSource N D) (d : D)
    (req : RequestParams N R) where
  -- `ResourceId` of a request: by the height if there is one, else by hash.
  abbrev pub resource_id : {H : Type 0} → Result R H → Result (Error N R) (ResourceId H)
  resource_id hash_param = do
    opt ← map_err request req.opt_height
    elim opt [
      | some height ↦ ok (number height)
      | none ↦ map_err request (hash_param >>= λ h. ok (hash h))
    ]

  unfoldable pub handle_getleaf : Result (Error N R) (LeafQueryData N)
  handle_getleaf = do
    id ← resource_id req.leaf_hash
    map_err (λ e. query_leaf e id) (source.source_leaf d id)

  unfoldable pub handle_streamleaves : Result (Error N R) (Stream (LeafQueryData N))
  handle_streamleaves = do
    height ← map_err request req.height
    map_err (leaf_stream height) (source.leaf_stream d height)

  -- The header of a block of a stream, or the error of the stream in its place.
  unfoldable pub header_of : QueryResult (BlockQueryData N) → Result (Error N R) N.Header
  header_of item = do b ← map_err stream_block item; ok b.header

  -- What a client is sent, given the blocks that are broadcast. A stream that cannot be opened is
  -- reported as a stream of leaves.
  unfoldable pub handle_streamblockheaders :
      Result (Error N R) (List (BlockQueryData N) → List (Result (Error N R) N.Header))
  unfolding header_of
  handle_streamblockheaders = do
    height ← map_err request req.height
    blocks ← map_err (leaf_stream height) (source.block_stream d height)
    ok (λ sent. map header_of (blocks sent))

  unfoldable pub handle_getblock : Result (Error N R) (BlockQueryData N)
  handle_getblock = do
    id ← resource_id req.block_hash
    map_err (λ e. query_block e id) (source.source_block d id)

  unfoldable pub handle_streamblocks : Result (Error N R) (Stream (BlockQueryData N))
  handle_streamblocks = do
    height ← map_err request req.height
    map_err (block_stream height) (source.block_stream d height)

  -- The block and the index at which the transaction stands.
  unfoldable pub transaction_by_height : Result (Error N R) (BlockQueryData N × N.TransactionIndex)
  unfolding Payload.nth
  transaction_by_height = do
    height ← map_err request req.height
    block ← map_err (λ e. query_block e (number height)) (source.source_block d (number height))
    i ← map_err request req.index
    index ← context (invalid_transaction_index height i) (Payload.nth N block.payload i)
    ok (block, index)

  unfoldable pub find_transaction : Result (Error N R) (BlockQueryData N × N.TransactionIndex)
  unfolding transaction_by_height
  find_transaction = do
    opt ← map_err request req.opt_transaction_hash
    elim opt [
      | some h ↦ map_err (λ e. query_transaction e h) (source.block_with_transaction d h)
      | none ↦ transaction_by_height
    ]

  unfoldable pub handle_gettransaction : Result (Fault (Error N R)) (TransactionQueryData N)
  unfolding find_transaction block_transaction
  handle_gettransaction = do
    (block, index) ← map_err error find_transaction
    context panic (block_transaction N block index)

  unfoldable pub handle_countproposals : Result (Error N R) ℕ
  handle_countproposals = do
    proposer ← map_err request req.proposer_id
    map_err (λ e. query_proposals e proposer) (source.proposal_count d proposer)

  unfoldable pub handle_getproposals : Result (Error N R) (List (LeafQueryData N))
  handle_getproposals = do
    proposer ← map_err request req.proposer_id
    limit ← map_err request req.opt_count
    map_err (λ e. query_proposals e proposer) (source.proposals d proposer limit)
