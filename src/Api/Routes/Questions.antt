-- ===== src/Api/Routes/Questions.antt =====
-- The requests to the availability API of src/availability.rs, with the routes of
-- src/api/availability.toml, and what the responses say about a data source of src/data_source/fs.rs.
use Prim.Native.String.{String}
use hotshot_query_service.Prelude.{ℕ, ◌^◌, ◌<◌, Option, some, none, map, Result, ok, map_err, ◌≡◌}
use hotshot_query_service.NodeTypes.{NodeTypes}
use hotshot_query_service.AppendLog.{AppendLogLaws}
use hotshot_query_service.LedgerLog.Inv.{objects}
use hotshot_query_service.LedgerLog.Defs.{received}
use hotshot_query_service.FileSystem.Defs.{Storage, FileSystemDataSource, number, hash}
use hotshot_query_service.FileSystem.Stored.{answer}
use hotshot_query_service.FileSystem.Queries.{
  get_leaf, get_block, get_proposals, count_proposals, subscribe_leaves, subscribe_blocks,
}
use hotshot_query_service.FileSystem.Transactions.Places.{blocks}
use hotshot_query_service.Api.{map_value}
use hotshot_query_service.Api.Errors.{
  query_leaf, query_block, query_proposals, leaf_stream, block_stream,
}
use hotshot_query_service.Api.Handlers.{RequestParams}
use hotshot_query_service.Api.Routes.{
  Response, leaf, leaves, headers, block, transaction, proposal_count, proposals,
}
use hotshot_query_service.Api.Transactions.{TransactionId, Asks, IsAnswer}

-- What a client can ask for.
pub data Question (N : NodeTypes) {E : Type 0} (S : Storage N E) (lv : AppendLogLaws S.leaves)
    (bv : AppendLogLaws S.blocks) (ds : FileSystemDataSource N S) : Type 0 where
  leaf_at : ℕ → Question N S lv bv ds
  leaf_of : N.LeafHash → Question N S lv bv ds
  leaves_from : ℕ → Question N S lv bv ds
  headers_from : ℕ → Question N S lv bv ds
  block_at_height : ℕ → Question N S lv bv ds
  block_of : N.BlockHash → Question N S lv bv ds
  blocks_from : ℕ → Question N S lv bv ds
  transaction_named : TransactionId N S lv bv ds → Question N S lv bv ds
  count_of : N.EncodedPublicKey → Question N S lv bv ds
  proposals_of : N.EncodedPublicKey → Option ℕ → Question N S lv bv ds

module _ (N : NodeTypes) {E : Type 0} (S : Storage N E) (lv : AppendLogLaws S.leaves)
    (bv : AppendLogLaws S.blocks) (ds : FileSystemDataSource N S) where
  -- The route of a question.
  abbrev pub route_of : Question N S lv bv ds → String
  route_of (leaf_at n) = "getleaf"
  route_of (leaf_of h) = "getleaf"
  route_of (leaves_from n) = "streamleaves"
  route_of (headers_from n) = "streamblockheaders"
  route_of (block_at_height n) = "getblock"
  route_of (block_of h) = "getblock"
  route_of (blocks_from n) = "streamblocks"
  route_of (transaction_named id) = "gettransaction"
  route_of (count_of key) = "countproposals"
  route_of (proposals_of key limit) = "getproposals"

  -- The parameters of a request for it.
  abbrev pub Puts : {R : Type 0} → RequestParams N R → Question N S lv bv ds → Type 0
  Puts req (leaf_at n) = (req.opt_height ≡ ok (some n)) × n < 2 ^ 64
  Puts req (leaf_of h) = (req.opt_height ≡ ok none) × (req.leaf_hash ≡ ok h)
  Puts req (leaves_from n) = req.height ≡ ok n
  Puts req (headers_from n) = req.height ≡ ok n
  Puts req (block_at_height n) = (req.opt_height ≡ ok (some n)) × n < 2 ^ 64
  Puts req (block_of h) = (req.opt_height ≡ ok none) × (req.block_hash ≡ ok h)
  Puts req (blocks_from n) = req.height ≡ ok n
  Puts req (transaction_named id) = Asks N S lv bv ds req id
  Puts req (count_of key) = req.proposer_id ≡ ok key
  Puts req (proposals_of key limit) = (req.proposer_id ≡ ok key) × (req.opt_count ≡ ok limit)

  -- What the response says about the data source.
  abbrev pub IsResponse : {R : Type 0} → Question N S lv bv ds → Response N R → Type 0
  IsResponse (leaf_at n) r =
      r
      ≡ leaf
          (map_err (λ e. query_leaf e (number n)) (answer (objects S.leaves lv ds.leaf_storage) n))
  IsResponse (leaf_of h) r =
      r ≡ leaf (map_err (λ e. query_leaf e (hash h)) (get_leaf N S ds (hash h)))
  IsResponse (leaves_from n) r =
      r
      ≡ leaves (
          map_err (leaf_stream n) (
            map_value (λ sub sent. map (λ l. ok l) (received sub sent))
              (subscribe_leaves N S ds n)))
  IsResponse (headers_from n) r =
      r
      ≡ headers (
          map_err (leaf_stream n) (
            map_value (λ sub sent. map (λ b. ok b.header) (received sub sent))
              (subscribe_blocks N S ds n)))
  IsResponse (block_at_height n) r =
      r ≡ block (map_err (λ e. query_block e (number n)) (answer (blocks N S lv bv ds) n))
  IsResponse (block_of h) r =
      r ≡ block (map_err (λ e. query_block e (hash h)) (get_block N S ds (hash h)))
  IsResponse (blocks_from n) r =
      r
      ≡ Response.blocks (
          map_err (block_stream n) (
            map_value (λ sub sent. map (λ b. ok b) (received sub sent))
              (subscribe_blocks N S ds n)))
  IsResponse {R} (transaction_named id) r =
      (t : Result _ _) × (r ≡ transaction t) × IsAnswer N S lv bv ds {R = R} id t
  IsResponse (count_of key) r = r ≡ proposal_count (ok (count_proposals N S ds key))
  IsResponse (proposals_of key limit) r =
      r ≡ proposals (map_err (λ e. query_proposals e key) (get_proposals N S ds key limit))
