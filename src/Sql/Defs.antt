-- ===== src/Sql/Defs.antt =====
-- The state of `SqlDataSource` of src/data_source/sql.rs and the methods that change it. A method that
-- takes `&mut self` returns the new data source beside its result.
use hotshot_query_service.Prelude.{
  ℕ, ◌+◌, List, [], ◌∷◌, ◌++◌, length, Bool, true, false, if◌then◌else◌, Result, ok, err, Fault,
  error, panic, ◌>>=◌, map_err, map_fault, and_then, some, none,
}
use Prim.Native.String.{String, ◌++◌ as append}
use hotshot_query_service.NodeTypes.{NodeTypes}
use hotshot_query_service.Errors.{QueryError, QueryResult, failure}
use hotshot_query_service.Channel.{BufferedChannel, push, flush, clear}
use hotshot_query_service.Availability.Payload.{transaction as payload_transaction}
use hotshot_query_service.Availability.QueryData.{
  LeafQueryData, BlockQueryData, leaf_height, leaf_hash, leaf_block_hash, proposer, block_height,
}
use hotshot_query_service.Sql.Client.{
  Client, Encodings, Param, bigint, integer, text, json, bytea, as_i64, as_i32,
}
use hotshot_query_service.Sql.Text.{show, join}

-- The statements, as the source writes them.
abbrev pub insert_header_text : String
insert_header_text = "INSERT INTO header (height, hash, data) VALUES ($1, $2, $3)"

abbrev pub insert_payload_text : String
insert_payload_text = "INSERT INTO payload (height) VALUES ($1)"

abbrev pub insert_leaf_text : String
insert_leaf_text =
    "INSERT INTO leaf (height, hash, proposer, block_hash, leaf, qc)\n             VALUES ($1, $2, $3, $4, $5, $6)"

abbrev pub update_payload_text : String
update_payload_text = "UPDATE payload SET (data, size) = ($1, $2) WHERE height = $3"

abbrev pub insert_transaction_text : String
insert_transaction_text = "INSERT INTO transaction (hash, block_height, index) VALUES "

-- An error with its text behind a prefix.
abbrev pub failed_to : {A : Type 0} → String → Result String A → QueryResult A
failed_to prefix r = map_err (λ e. failure (append prefix e)) r

-- The placeholders of a row of `transaction`, behind `n` parameters.
unfoldable pub row_text : ℕ → String
row_text n = append "($" (
    append (show (n + 1))
      (append ",$" (append (show (n + 2)) (append ",$" (append (show (n + 3)) ")")))))

module _ (N : NodeTypes) (C : Encodings N) where
  abbrev pub Statement : Type 0
  Statement = String × List (Param C.Json C.Text)

  -- The statements of `insert_leaf`.
  unfoldable pub leaf_statements : LeafQueryData N → QueryResult (List Statement)
  leaf_statements l = do
    header_json ←
        failed_to "failed to serialize header: " (C.header_to_json (N.block_header l.leaf))
    leaf_json ← failed_to "failed to serialize leaf: " (C.leaf_to_json l.leaf)
    qc_json ← failed_to "failed to serialize QC: " (C.qc_to_json l.qc)
    ok (
        (
          insert_header_text,
          bigint (as_i64 (leaf_height N l))
              ∷ text (C.block_hash_text (leaf_block_hash N l))
              ∷ json header_json
              ∷ [],
        )
        ∷ (insert_payload_text, bigint (as_i64 (leaf_height N l)) ∷ [])
        ∷ (
          insert_leaf_text,
          bigint (as_i64 (leaf_height N l))
              ∷ text (C.leaf_hash_text (leaf_hash N l))
              ∷ text (C.key_text (proposer N l))
              ∷ text (C.block_hash_text (leaf_block_hash N l))
              ∷ json leaf_json
              ∷ json qc_json
              ∷ [],
        )
        ∷ [])

  -- The loop of `insert_block` over the transactions, from the indices to come, the values and the
  -- parameters. It ends with the panic of `enumerate` at an index of the payload for which there is no
  -- transaction.
  unfoldable pub transaction_rows :
      BlockQueryData N
      → List N.TransactionIndex
      → List String
      → List (Param C.Json C.Text)
      → Result (Fault QueryError) (List String × List (Param C.Json C.Text))
  unfolding row_text
  transaction_rows b [] values params = ok (values, params)
  transaction_rows b (ix ∷ ixs) values params = elim (payload_transaction N b.payload ix) [
    | none ↦ err panic
    | some txn ↦ elim (C.index_to_json ix) [
      | err e ↦ err (error (failure (append "failed to serialize transaction index: " e)))
      | ok txn_ix ↦ transaction_rows b ixs (values ++ (row_text (length params) ∷ [])) (
          params
          ++ (text (C.transaction_hash_text (N.commit_transaction txn))
              ∷ bigint (as_i64 (block_height N b))
              ∷ json txn_ix
              ∷ []))
    ]
  ]

  -- No statement for a block without transactions.
  unfoldable pub transaction_statement : List String → List (Param C.Json C.Text) → List Statement
  transaction_statement [] params = []
  transaction_statement (v ∷ values) params =
      (append insert_transaction_text (join (v ∷ values) ","), params) ∷ []

  -- The statements of `insert_block`.
  unfoldable pub block_statements : BlockQueryData N → Result (Fault QueryError) (List Statement)
  unfolding transaction_rows transaction_statement
  block_statements b = elim (N.encode b.payload) [
    | none ↦ err (error (failure (append "failed to serialize block: " (C.encode_error b.payload))))
    | some payload ↦ do
      (values, params) ← transaction_rows b (N.iter b.payload) [] []
      ok (
          (
            update_payload_text,
            bytea payload ∷ integer (as_i32 b.size) ∷ bigint (as_i64 (block_height N b)) ∷ [],
          )
          ∷ transaction_statement values params)
  ]

  module _ (K : Client C.Json C.Text) where
    -- Without its metrics and the handle of the connection, which no method here uses.
    pub record SqlDataSource : Type 0 where
      pub client : K.Db
      pub tx_in_progress : Bool
      pub leaf_stream : BufferedChannel (LeafQueryData N)
      pub block_stream : BufferedChannel (BlockQueryData N)

    -- `Transaction::execute`
    unfoldable pub execute :
        K.Db → String → List (Param C.Json C.Text) → K.Db × Result String (Unit {0})
    execute db statement params = K.execute_raw db statement params

    -- `Transaction::execute_many`
    unfoldable pub execute_many : K.Db → List Statement → K.Db × Result String (Unit {0})
    unfolding execute
    execute_many db [] = (db, ok tt)
    execute_many db ((stmt, params) ∷ stmts) =
        and_then (execute db stmt params) (λ db'. execute_many db' stmts)

    unfoldable pub transaction : SqlDataSource → SqlDataSource × Result String (Unit {0})
    transaction ds =
        if ds.tx_in_progress
        then (ds, ok tt)
        else (let (db, res) = K.batch_execute ds.client "BEGIN" in
            elim res [
              | ok _ ↦ (record ds { client = db; tx_in_progress = true }, ok tt)
              | err e ↦ (record ds { client = db }, err e)
            ])

    -- The end of `insert_leaf` and of `insert_block`: all the statements in the transaction.
    unfoldable pub run_statements :
        SqlDataSource → List Statement → SqlDataSource × Result QueryError (Unit {0})
    unfolding transaction execute_many
    run_statements ds stmts = map_fault failure (
        and_then (transaction ds) (λ ds'.
          let (db, res) = execute_many ds'.client stmts in (record ds' { client = db }, res)))

    unfoldable pub insert_leaf :
        SqlDataSource → LeafQueryData N → SqlDataSource × Result QueryError (Unit {0})
    unfolding leaf_statements run_statements push
    insert_leaf ds l = elim (leaf_statements l) [
      | err e ↦ (ds, err e)
      | ok stmts ↦
          and_then (run_statements ds stmts)
            (λ ds'. (record ds' { leaf_stream = push ds'.leaf_stream l }, ok tt))
    ]

    unfoldable pub insert_block :
        SqlDataSource → BlockQueryData N → SqlDataSource × Result (Fault QueryError) (Unit {0})
    unfolding block_statements run_statements push
    insert_block ds b = elim (block_statements b) [
      | err e ↦ (ds, err e)
      | ok stmts ↦
          and_then (map_fault error (run_statements ds stmts))
            (λ ds'. (record ds' { block_stream = push ds'.block_stream b }, ok tt))
    ]

    -- `COMMIT`, if a transaction is in progress.
    unfoldable pub commit_transaction : SqlDataSource → SqlDataSource × Result String (Unit {0})
    commit_transaction ds =
        if ds.tx_in_progress
        then (let (db, res) = K.batch_execute ds.client "COMMIT" in
            elim res [
              | ok _ ↦ (record ds { client = db; tx_in_progress = false }, ok tt)
              | err e ↦ (record ds { client = db }, err e)
            ])
        else (ds, ok tt)

    unfoldable pub commit : SqlDataSource → SqlDataSource × Result String (Unit {0})
    unfolding commit_transaction flush
    commit ds = and_then (commit_transaction ds) (λ ds'. (
      record ds' { leaf_stream = flush ds'.leaf_stream; block_stream = flush ds'.block_stream },
      ok tt,
    ))

    -- `ROLLBACK`, if a transaction is in progress. A failure is a panic.
    unfoldable pub roll_back : SqlDataSource → SqlDataSource × Result (Fault String) (Unit {0})
    roll_back ds =
        if ds.tx_in_progress
        then (let (db, res) = K.batch_execute ds.client "ROLLBACK" in
            elim res [
              | ok _ ↦ (record ds { client = db; tx_in_progress = false }, ok tt)
              | err e ↦ (record ds { client = db }, err panic)
            ])
        else (ds, ok tt)

    unfoldable pub revert : SqlDataSource → SqlDataSource × Result (Fault String) (Unit {0})
    unfolding roll_back clear
    revert ds = and_then (roll_back ds) (λ ds'. (
      record ds' { leaf_stream = clear ds'.leaf_stream; block_stream = clear ds'.block_stream },
      ok tt,
    ))
