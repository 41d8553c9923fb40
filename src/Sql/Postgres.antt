-- ===== src/Sql/Postgres.antt =====
-- What Postgres documents of the statements that src/data_source/sql.rs executes on its tables.
use hotshot_query_service.Prelude.{
  ℕ, Option, none, List, [], ◌∷◌, ◌++◌, map, true, false, Result, ok, err, ◌≡◌, map_option, length,
  ◌≤◌, ◌+◌,
}
use Prim.Native.String.{String, ◌++◌ as append}
use hotshot_query_service.Sql.Queries.{block_query, leaf_range_query}
use hotshot_query_service.Sql.Defs.{
  insert_header_text, insert_payload_text, insert_leaf_text, update_payload_text, row_text,
  insert_transaction_text,
}
use hotshot_query_service.Sql.Text.{join}
use hotshot_query_service.AppendLog.{IsOk}
use hotshot_query_service.Metrics.Values.{ℤ}
use hotshot_query_service.Sql.Client.{Client, Param, bigint, integer, text, json, bytea}
use hotshot_query_service.Sql.Tables.{
  PayloadRow, HeaderRow, LeafRow, TransactionRow, Session, begin, committed, rolled_back, find_leaf,
  find_header, find_payload, set_payload, find_block,
}
use hotshot_query_service.Sql.Clauses.{Comparison, clause_text, all_hold, keep, by_height}

-- The list of the placeholders of rows behind `n` parameters, and the parameters.
unfoldable pub values_text : {J T : Type 0} → ℕ → List (TransactionRow J T) → List String
unfolding row_text
values_text n [] = []
values_text n (r ∷ rows) = row_text n ∷ values_text (n + 3) rows

unfoldable pub row_params : {J T : Type 0} → List (TransactionRow J T) → List (Param J T)
row_params [] = []
row_params (r ∷ rows) = text r.hash ∷ bigint r.block_height ∷ json r.index ∷ row_params rows

-- The statements that add and change rows.
pub data Changes : String → Type 0 where
  adds_header : Changes insert_header_text
  adds_payload : Changes insert_payload_text
  adds_leaf : Changes insert_leaf_text
  sets_payload : Changes update_payload_text
  adds_transactions : (values : String) → Changes (append insert_transaction_text values)

-- What Postgres documents of the statements on these tables within a transaction, for a database that
-- has no other client.
-- `session` is what the client sees, and `leaf_row` and `block_row` are rows of query results.
pub record PostgresLaws {J T : Type 0} (K : Client J T) : Type 0 where
  pub session : K.Db → Session J T
  pub leaf_row : LeafRow J T → K.Row
  pub block_row : HeaderRow J T → PayloadRow → K.Row
  pub begin-ok :
      (db : K.Db)
      → IsOk (K.batch_execute db "BEGIN").1
      → session (K.batch_execute db "BEGIN").0 ≡ begin J T (session db)
  pub begin-err :
      (db : K.Db) (e : String)
      → (K.batch_execute db "BEGIN").1 ≡ err e
      → session (K.batch_execute db "BEGIN").0 ≡ session db
  pub commit-ok :
      (db : K.Db)
      → IsOk (K.batch_execute db "COMMIT").1
      → session (K.batch_execute db "COMMIT").0 ≡ committed J T (session db)
  pub rollback-ok :
      (db : K.Db)
      → IsOk (K.batch_execute db "ROLLBACK").1
      → session (K.batch_execute db "ROLLBACK").0 ≡ rolled_back J T (session db)
  -- Such a statement, also if it fails, does not change what is durable or end the transaction.
  pub execute-durable :
      (db : K.Db) (stmt : String) (params : List (Param J T))
      → Changes stmt
      → (session db).in_transaction ≡ true
      → ((session (K.execute_raw db stmt params).0).durable ≡ (session db).durable)
        × ((session (K.execute_raw db stmt params).0).in_transaction ≡ true)
  pub insert_header :
      (db : K.Db) (h : ℤ) (k : T) (j : J)
      → (session db).in_transaction ≡ true
      → IsOk (K.execute_raw db insert_header_text (bigint h ∷ text k ∷ json j ∷ [])).1
      → (session (K.execute_raw db insert_header_text (bigint h ∷ text k ∷ json j ∷ [])).0
          ≡ record (session db) {
            tables = record (session db).tables {
              header =
                  (session db).tables.header
                  ++ (record { height = h; hash = k; header_data = j } ∷ []);
            };
          })
        × ((session db).failed ≡ false)
        × (find_header h (session db).tables.header ≡ none)
  pub insert_payload :
      (db : K.Db) (h : ℤ)
      → (session db).in_transaction ≡ true
      → IsOk (K.execute_raw db insert_payload_text (bigint h ∷ [])).1
      → (session (K.execute_raw db insert_payload_text (bigint h ∷ [])).0 ≡ record (session db) {
        tables = record (session db).tables {
          payload =
              (session db).tables.payload
              ++ (record { height = h; size = none; bytes = none } ∷ []);
        };
      })
        × ((session db).failed ≡ false)
        × (find_payload h (session db).tables.payload ≡ none)
  pub insert_leaf :
      (db : K.Db) (h : ℤ) (k p b : T) (l q : J)
      → (session db).in_transaction ≡ true
      → IsOk
          (K.execute_raw db insert_leaf_text
            (bigint h ∷ text k ∷ text p ∷ text b ∷ json l ∷ json q ∷ [])).1
      → (session
            (K.execute_raw db insert_leaf_text
              (bigint h ∷ text k ∷ text p ∷ text b ∷ json l ∷ json q ∷ [])).0
          ≡ record (session db) {
            tables = record (session db).tables {
              leaf =
                  (session db).tables.leaf
                  ++ (record {
                    height = h;
                    hash = k;
                    proposer = p;
                    block_hash = b;
                    leaf = l;
                    qc = q;
                  }
                      ∷ []);
            };
          })
        × ((session db).failed ≡ false)
        × (find_leaf h (session db).tables.leaf ≡ none)
  pub update_payload :
      (db : K.Db) (bytes : List ℕ) (size h : ℤ)
      → (session db).in_transaction ≡ true
      → IsOk (K.execute_raw db update_payload_text (bytea bytes ∷ integer size ∷ bigint h ∷ [])).1
      → (session
            (K.execute_raw db update_payload_text (bytea bytes ∷ integer size ∷ bigint h ∷ [])).0
          ≡ record (session db) {
            tables = record (session db).tables {
              payload = set_payload bytes size h (session db).tables.payload;
            };
          })
        × ((session db).failed ≡ false)
  -- One statement adds all the rows that are listed.
  pub insert_transaction :
      (db : K.Db) (r : TransactionRow J T) (rows : List (TransactionRow J T))
      → (session db).in_transaction ≡ true
      → IsOk
          (K.execute_raw db
            (append insert_transaction_text (join (values_text 0 (r ∷ rows)) ","))
            (row_params (r ∷ rows))).1
      → (session
            (K.execute_raw db
              (append insert_transaction_text (join (values_text 0 (r ∷ rows)) ","))
              (row_params (r ∷ rows))).0
          ≡ record (session db) {
            tables = record (session db).tables {
              transaction = (session db).tables.transaction ++ (r ∷ rows);
            };
          })
        × ((session db).failed ≡ false)
  -- A query that succeeds, by height, a primary key.
  pub select_leaf :
      (db : K.Db) (h : ℤ) (found : Option K.Row)
      → K.query_opt db "SELECT leaf, qc FROM leaf WHERE height = $1" (bigint h ∷ []) ≡ ok found
      → found ≡ map_option leaf_row (find_leaf h (session db).tables.leaf)
  pub select_block :
      (db : K.Db) (h : ℤ) (found : Option K.Row)
      → K.query_opt db (block_query "h.height = $1") (bigint h ∷ []) ≡ ok found
      → found
        ≡ map_option
            (λ (b : HeaderRow J T × PayloadRow). block_row b.0 b.1)
            (find_block h (session db).tables)
  -- A query for rows counts as successful only if all its rows arrive.
  pub select_leaves :
      (db : K.Db) (cs : List Comparison) (params : List ℤ) (rows : List (Result String K.Row))
      → length params ≡ length cs
      → length cs ≤ 2
      → K.query_raw db (leaf_range_query (clause_text "height" cs)) (map bigint params) ≡ ok rows
      → rows
        ≡ map
            (λ r. ok (leaf_row r))
            (by_height (keep (λ r. all_hold params cs r.height) (session db).tables.leaf))
  pub leaf_row-leaf : (r : LeafRow J T) → K.try_get_json (leaf_row r) "leaf" ≡ ok r.leaf
  pub leaf_row-qc : (r : LeafRow J T) → K.try_get_json (leaf_row r) "qc" ≡ ok r.qc
  pub block_row-hash :
      (h : HeaderRow J T) (p : PayloadRow) → K.try_get_text (block_row h p) "hash" ≡ ok h.hash
  pub block_row-data :
      (h : HeaderRow J T) (p : PayloadRow)
      → K.try_get_json (block_row h p) "header_data" ≡ ok h.header_data
  pub block_row-size :
      (h : HeaderRow J T) (p : PayloadRow)
      → K.try_get_integer (block_row h p) "payload_size" ≡ ok p.size
  pub block_row-bytes :
      (h : HeaderRow J T) (p : PayloadRow)
      → K.try_get_bytea (block_row h p) "payload_data" ≡ ok p.bytes
