-- ===== src/Sql/Queries.antt =====
-- The queries of `SqlDataSource` (src/data_source/sql.rs, `AvailabilityDataSource` and
-- `StatusDataSource`), and the objects that they read from rows.
use hotshot_query_service.Prelude.{
  ℕ, ◌+◌, Option, none, some, List, [], ◌∷◌, ◌++◌, map, reverse, length, Result, ok, Fault, error,
  panic, ◌>>=◌, map_err, context, add_usize,
}
use Prim.Native.String.{String, ◌++◌ as append}
use hotshot_query_service.NodeTypes.{NodeTypes}
use hotshot_query_service.Errors.{QueryError, QueryResult, failure, not_found_error, missing}
use hotshot_query_service.Channel.{subscribe}
use hotshot_query_service.Availability.QueryData.{LeafQueryData, BlockQueryData}
use hotshot_query_service.FileSystem.Range.{Bound, included, excluded, unbounded}
use hotshot_query_service.FileSystem.Defs.{ResourceId, number, hash}
use hotshot_query_service.FileSystem.Queries.{try_collect}
use hotshot_query_service.Metrics.Values.{ℤ}
use hotshot_query_service.Sql.Client.{Client, Encodings, Param, bigint, text, as_i64, as_usize}
use hotshot_query_service.Sql.Text.{show, join}
use hotshot_query_service.Sql.Defs.{SqlDataSource, failed_to}

abbrev pub block_columns : String
block_columns =
    "h.hash AS hash, h.data AS header_data, p.size AS payload_size, p.data AS payload_data"

-- The clause of a bound on a column, and the parameter, which follows those given.
unfoldable pub start_clause : Bound → String → List String × List ℤ
unfolding show
start_clause (included n) column = (append column (append " >= $" (show 1)) ∷ [], as_i64 n ∷ [])
start_clause (excluded n) column = (append column (append " > $" (show 1)) ∷ [], as_i64 n ∷ [])
start_clause unbounded column = ([], [])

unfoldable pub end_clause : Bound → String → List ℤ → List String × List ℤ
unfolding show
end_clause (included n) column params =
    (append column (append " <= $" (show (length params + 1))) ∷ [], as_i64 n ∷ [])
end_clause (excluded n) column params =
    (append column (append " < $" (show (length params + 1))) ∷ [], as_i64 n ∷ [])
end_clause unbounded column params = ([], [])

-- Nothing is written where there are no bounds.
unfoldable pub where_text : List String → String
unfolding join
where_text [] = ""
where_text (c ∷ clauses) = append " WHERE " (join (c ∷ clauses) " AND ")

unfoldable pub bounds_to_where_clause : Bound → Bound → String → String × List ℤ
unfolding start_clause end_clause where_text
bounds_to_where_clause start end column =
    let (lower, params) = start_clause start column in
    let (upper, params') = end_clause end column params in
    (where_text (lower ++ upper), params ++ params')

-- The condition and the parameter of a resource.
abbrev where_resource : {H J T : Type 0} → String → (H → T) → ResourceId H → String × Param J T
where_resource column to_text (number n) = (append column "height = $1", bigint (as_i64 n))
where_resource column to_text (hash h) = (append column "hash = $1", text (to_text h))

-- `Option::zip`
unfoldable pub zip_option : {A B : Type 0} → Option A → Option B → Option (A × B)
zip_option (some a) (some b) = some (a, b)
zip_option (some a) none = none
zip_option none b = none

-- The statement of `get_leaf` for a condition.
unfoldable pub leaf_query : String → String
leaf_query where_clause = append "SELECT leaf, qc FROM leaf WHERE " where_clause

unfoldable pub block_query : String → String
block_query where_clause = append "SELECT " (
    append block_columns (
      append
        "\n              FROM header AS h\n              JOIN payload AS p ON h.height = p.height\n              WHERE "
        (append where_clause "\n              ORDER BY h.height ASC\n              LIMIT 1")))

abbrev pub transaction_query : String
transaction_query = append "SELECT " (
    append block_columns
      ", t.index AS tx_index\n                FROM header AS h\n                JOIN payload AS p ON h.height = p.height\n                JOIN transaction AS t ON t.block_height = h.height\n                WHERE t.hash = $1\n                ORDER BY t.id ASC\n                LIMIT 1")

unfoldable pub leaf_range_query : String → String
leaf_range_query where_clause =
    append "SELECT leaf, qc FROM leaf " (append where_clause " ORDER BY height ASC")

unfoldable pub block_range_query : String → String
block_range_query where_clause = append "SELECT " (
    append block_columns (
      append
        "\n              FROM header AS h\n              JOIN payload AS p ON h.height = p.height\n              "
        (append where_clause "\n              ORDER BY h.height ASC")))

unfoldable pub proposals_query : Option ℕ → String
unfolding show
proposals_query none = "SELECT leaf, qc FROM leaf WHERE proposer = $1"
proposals_query (some limit) =
    append "SELECT leaf, qc FROM leaf WHERE proposer = $1"
      (append " ORDER BY height DESC limit " (show limit))

-- Leaves that were selected with a limit are in the opposite order.
unfoldable pub in_order : {A : Type 0} → Option ℕ → List A → List A
in_order none leaves = leaves
in_order (some limit) leaves = reverse leaves

-- The height of a chain, from the greatest height of a block.
unfoldable pub height_above : Option ℤ → ℕ
unfolding as_usize
height_above (some height) = add_usize (as_usize height) 1
height_above none = 0

module _ (N : NodeTypes) (C : Encodings N) (K : Client C.Json C.Text) where
  unfoldable pub parse_leaf : K.Row → QueryResult (LeafQueryData N)
  parse_leaf row = do
    leaf_json ← failed_to "error extracting leaf from query results: " (K.try_get_json row "leaf")
    leaf ← failed_to "malformed leaf: " (C.leaf_from_json leaf_json)
    qc_json ← failed_to "error extracting QC from query results: " (K.try_get_json row "qc")
    qc ← failed_to "malformed QC: " (C.qc_from_json qc_json)
    ok (record { leaf = leaf; qc = qc })

  unfoldable pub parse_block : K.Row → QueryResult (BlockQueryData N)
  unfolding zip_option
  parse_block row = do
    size ←
        failed_to "error extracting payload size from query results: "
          (K.try_get_integer row "payload_size")
    payload_data ←
        failed_to "error extracting payload data from query results: "
          (K.try_get_bytea row "payload_data")
    (size, payload_data) ← context missing (zip_option size payload_data)
    header_data ←
        failed_to "error extracting header data from query results: "
          (K.try_get_json row "header_data")
    header ← failed_to "malformed header: " (C.header_from_json header_data)
    hash_text ←
        failed_to "error extracting block hash from query results: " (K.try_get_text row "hash")
    block_hash ← failed_to "malformed block hash: " (C.block_hash_parse hash_text)
    ok (record {
      header = header;
      payload = C.from_bytes payload_data header;
      size = as_usize size;
      hash = block_hash;
    })

  -- The object of the row that a query finds, if any.
  abbrev one_row :
      {A : Type 0} → Result String (Option K.Row) → (K.Row → QueryResult A) → QueryResult A
  one_row res parse = do found ← map_err failure res; row ← context not_found_error found; parse row

  -- The object of a row of a stream.
  abbrev pub parse_item :
      {A : Type 0} → (K.Row → QueryResult A) → Result String K.Row → QueryResult A
  parse_item parse res = do row ← map_err failure res; parse row

  module _ (ds : SqlDataSource N C K) where
    unfoldable pub get_leaf : ResourceId N.LeafHash → QueryResult (LeafQueryData N)
    unfolding parse_leaf leaf_query
    get_leaf id =
        let (where_clause, param) = where_resource "" C.leaf_hash_text id in
        one_row (K.query_opt ds.client (leaf_query where_clause) (param ∷ [])) parse_leaf

    unfoldable pub get_block : ResourceId N.BlockHash → QueryResult (BlockQueryData N)
    unfolding parse_block block_query
    get_block id =
        let (where_clause, param) = where_resource "h." C.block_hash_text id in
        one_row (K.query_opt ds.client (block_query where_clause) (param ∷ [])) parse_block

    unfoldable pub get_leaf_range :
        Bound → Bound → QueryResult (List (QueryResult (LeafQueryData N)))
    unfolding bounds_to_where_clause parse_leaf leaf_range_query
    get_leaf_range start end = do
      rows ← map_err failure (
          K.query_raw ds.client (leaf_range_query (bounds_to_where_clause start end "height").0)
            (map bigint (bounds_to_where_clause start end "height").1))
      ok (map (parse_item parse_leaf) rows)

    unfoldable pub get_block_range :
        Bound → Bound → QueryResult (List (QueryResult (BlockQueryData N)))
    unfolding bounds_to_where_clause parse_block block_range_query
    get_block_range start end = do
      rows ← map_err failure (
          K.query_raw ds.client (block_range_query (bounds_to_where_clause start end "h.height").0)
            (map bigint (bounds_to_where_clause start end "h.height").1))
      ok (map (parse_item parse_block) rows)

    unfoldable pub get_block_with_transaction :
        N.TransactionHash → QueryResult (BlockQueryData N × N.TransactionIndex)
    unfolding parse_block
    get_block_with_transaction h =
        one_row (K.query_opt ds.client transaction_query (text (C.transaction_hash_text h) ∷ []))
          (λ row. do
            index_json ←
                failed_to "error extracting transaction index from query results: "
                  (K.try_get_json row "tx_index")
            index ← failed_to "malformed transaction index: " (C.index_from_json index_json)
            block ← parse_block row
            ok (block, index))

    unfoldable pub get_proposals :
        N.EncodedPublicKey → Option ℕ → QueryResult (List (LeafQueryData N))
    unfolding proposals_query parse_leaf try_collect in_order
    get_proposals id limit = do
      rows ←
          map_err failure
            (K.query_raw ds.client (proposals_query limit) (text (C.key_text id) ∷ []))
      leaves ← try_collect (map (parse_item parse_leaf) rows)
      ok (in_order limit leaves)

    -- `row.get(0)` panics on an error, and here also on a null.
    unfoldable pub count_proposals : N.EncodedPublicKey → Result (Fault QueryError) ℕ
    count_proposals id = do
      row ←
          map_err (λ e. error (failure e))
            (K.query_one ds.client "SELECT count(*) FROM leaf WHERE proposer = $1"
              (text (C.key_text id) ∷ []))
      value ← map_err (λ _. panic) (K.get_bigint row 0)
      count ← context panic value
      ok (as_usize count)

    -- The leaves that are stored, and a subscriber for those to come.
    unfoldable pub subscribe_leaves : ℕ → QueryResult (List (QueryResult (LeafQueryData N)) × ℕ)
    unfolding get_leaf_range subscribe
    subscribe_leaves height = do
      current ← get_leaf_range (included height) unbounded
      ok (current, subscribe ds.leaf_stream)

    unfoldable pub subscribe_blocks : ℕ → QueryResult (List (QueryResult (BlockQueryData N)) × ℕ)
    unfolding get_block_range subscribe
    subscribe_blocks height = do
      current ← get_block_range (included height) unbounded
      ok (current, subscribe ds.block_stream)

    unfoldable pub source_height : Result (Fault QueryError) ℕ
    unfolding height_above
    source_height = do
      row ←
          map_err (λ e. error (failure e))
            (K.query_one ds.client "SELECT max(height) FROM header" [])
      height ← map_err (λ _. panic) (K.get_bigint row 0)
      ok (height_above height)
