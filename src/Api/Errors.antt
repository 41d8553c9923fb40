-- ===== src/Api/Errors.antt =====
-- `Error` of src/availability.rs and its status codes. An error keeps the resource that was asked
-- for and the error of the data source where the source keeps their texts.
use hotshot_query_service.Prelude.{ℕ}
use Prim.Native.String.{String}
use hotshot_query_service.NodeTypes.{NodeTypes}
use hotshot_query_service.Errors.{
  QueryError, StatusCode, bad_request, not_found, internal_server_error, query_status,
}
use hotshot_query_service.FileSystem.Defs.{ResourceId}

-- `R` is `tide_disco::RequestError`.
pub data Error (N : NodeTypes) (R : Type 0) : Type 0 where
  request : R → Error N R
  query_leaf : QueryError → ResourceId N.LeafHash → Error N R
  stream_leaf : QueryError → Error N R
  query_block : QueryError → ResourceId N.BlockHash → Error N R
  stream_block : QueryError → Error N R
  query_transaction : QueryError → N.TransactionHash → Error N R
  query_proposals : QueryError → N.EncodedPublicKey → Error N R
  invalid_transaction_index : ℕ → ℕ → Error N R
  leaf_stream : ℕ → QueryError → Error N R
  block_stream : ℕ → QueryError → Error N R
  custom : String → StatusCode → Error N R

unfoldable pub status : {N : NodeTypes} {R : Type 0} → Error N R → StatusCode
unfolding query_status
status (request r) = bad_request
status (query_leaf e id) = query_status e
status (stream_leaf e) = query_status e
status (query_block e id) = query_status e
status (stream_block e) = query_status e
status (query_transaction e hash) = query_status e
status (query_proposals e proposer) = query_status e
status (invalid_transaction_index height index) = not_found
status (leaf_stream height e) = internal_server_error
status (block_stream height e) = internal_server_error
status (custom message code) = code

-- `Error::internal`
unfoldable pub internal : {N : NodeTypes} {R : Type 0} → String → Error N R
internal message = custom message internal_server_error
