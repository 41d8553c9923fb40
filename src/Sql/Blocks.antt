-- ===== src/Sql/Blocks.antt =====
-- What `insert_block` of src/data_source/sql.rs does to the session when it succeeds, and what it
-- leaves alone when it fails.
use hotshot_query_service.Prelude.{
  ℕ, some, List, [], ◌∷◌, ◌++◌, true, false, ok, Result-cases, ◌≡◌, sym, ap, ◌∙◌, inl, inr, arith,
  subst, append-nil,
}
use Prim.Native.String.{◌++◌ as append}
use hotshot_query_service.NodeTypes.{NodeTypes}
use hotshot_query_service.AppendLog.{IsOk}
use hotshot_query_service.Channel.{push}
use hotshot_query_service.Availability.QueryData.{BlockQueryData, block_height}
use hotshot_query_service.Sql.Client.{Client, Encodings, as_i64, as_i32}
use hotshot_query_service.Sql.Text.{join}
use hotshot_query_service.Sql.Tables.{Session, begin, set_payload, TransactionRow}
use hotshot_query_service.Sql.Postgres.{
  sets_payload, adds_transactions, PostgresLaws, values_text, row_params,
}
use hotshot_query_service.Sql.Sessions.{
  AllChange, session_of, IsSynced, transaction_lem, execute_many-cons,
}
use hotshot_query_service.Sql.Inserts.{run_statements_fields, run_statements-durable}
use hotshot_query_service.Sql.Defs.{
  SqlDataSource, Statement, execute_many, transaction, run_statements, block_statements,
  transaction_statement, insert_block, insert_transaction_text,
}
use hotshot_query_service.Sql.BlockRows.{update_of, Lists, block_statements-ok}

module _ (N : NodeTypes) (C : Encodings N) where
  transaction_statement-AllChange :
      (rows : List (TransactionRow C.Json C.Text))
      → AllChange (transaction_statement N C (values_text 0 rows) (row_params rows))
  unfolding AllChange transaction_statement values_text
  transaction_statement-AllChange [] = tt
  transaction_statement-AllChange (r ∷ rows) =
      (adds_transactions (join (values_text 0 (r ∷ rows)) ","), tt)

  module _ (K : Client C.Json C.Text) where
    insert_block_fields :
        (ds : SqlDataSource N C K) (b : BlockQueryData N)
        → IsOk (insert_block N C K ds b).1
        → (stmts : List (Statement N C)) × (block_statements N C b ≡ ok stmts)
          × IsOk (run_statements N C K ds stmts).1
          × ((insert_block N C K ds b).0 ≡ record (run_statements N C K ds stmts).0 {
            block_stream = push (run_statements N C K ds stmts).0.block_stream b;
          })
    unfolding insert_block push
    insert_block_fields ds b good = elim (Result-cases (block_statements N C b)) [
      | inr (x, f) ↦ absurd (ground (arith, f))
      | inl (stmts, f) ↦ (stmts, f, ground (arith, f), ground (arith, f))
    ]

    module _ (laws : PostgresLaws K) where
      -- At most one statement adds the rows to `transaction`.
      transactions_executed :
          (db : K.Db) (rows : List (TransactionRow C.Json C.Text))
          → (laws.session db).in_transaction ≡ true
          → IsOk
              (execute_many N C K db
                (transaction_statement N C (values_text 0 rows) (row_params rows))).1
          → laws.session
              (execute_many N C K db
                (transaction_statement N C (values_text 0 rows) (row_params rows))).0
            ≡ record (laws.session db) {
              tables = record (laws.session db).tables {
                transaction = (laws.session db).tables.transaction ++ rows;
              };
            }
      unfolding execute_many transaction_statement values_text row_params
      transactions_executed db [] open_ good =
          ap
            (λ rows. record (laws.session db) {
              tables = record (laws.session db).tables { transaction = rows };
            })
            (sym (append-nil (laws.session db).tables.transaction))
      transactions_executed db (r ∷ rows) open_ good =
          let stmt = append insert_transaction_text (join (values_text 0 (r ∷ rows)) ",") in
          let (ran, _, same) =
            execute_many-cons N C K laws db stmt (row_params (r ∷ rows)) [] good in
          ap laws.session same ∙ (laws.insert_transaction db r rows open_ ran).0

      pub insert_block_lem :
          (ds : SqlDataSource N C K) (b : BlockQueryData N)
          → IsSynced N C K laws ds
          → IsOk (insert_block N C K ds b).1
          → (bytes : List ℕ) × (rows : List (TransactionRow C.Json C.Text)) × Lists N C b
              (N.iter b.payload)
              rows
            × (N.encode b.payload ≡ some bytes)
            × (session_of N C K laws (insert_block N C K ds b).0
                ≡ record (session_of N C K laws ds) {
                  in_transaction = true;
                  tables = record (session_of N C K laws ds).tables {
                    payload =
                        set_payload bytes
                          (as_i32 b.size)
                          (as_i64 (block_height N b))
                          (session_of N C K laws ds).tables.payload;
                    transaction = (session_of N C K laws ds).tables.transaction ++ rows;
                  };
                })
            × ((session_of N C K laws ds).failed ≡ false)
            × ((insert_block N C K ds b).0.tx_in_progress ≡ true)
            × ((insert_block N C K ds b).0.leaf_stream ≡ ds.leaf_stream)
            × ((insert_block N C K ds b).0.block_stream ≡ push ds.block_stream b)
      unfolding begin
      insert_block_lem ds b sync good =
          let h = as_i64 (block_height N b) in
          let (stmts, e, ran, at) = insert_block_fields ds b good in
          let (bytes, rows, listed, encoded, f) = block_statements-ok N C b stmts e in
          let (opened, executed, fields) = run_statements_fields N C K ds stmts ran in
          let (begun, keeps, leaves, blocks) = transaction_lem N C K laws ds sync opened in
          let db = (transaction N C K ds).0.client in
          let update = update_of N C b bytes in
          let tail = transaction_statement N C (values_text 0 rows) (row_params rows) in
          let executed' : IsOk (execute_many N C K db (update ∷ tail)).1 =
            subst (λ ss. IsOk (execute_many N C K db ss).1) f executed in
          let (good1, rest1, same1) =
            execute_many-cons N C K laws db update.0 update.1 tail executed' in
          let open_ : (laws.session db).in_transaction ≡ true = ap (λ s. s.in_transaction) begun in
          let open1 = (laws.execute-durable db update.0 update.1 sets_payload open_).1 in
          let (at1, sound) = laws.update_payload db bytes (as_i32 b.size) h open_ good1 in
          let at2 = transactions_executed (K.execute_raw db update.0 update.1).0 rows open1 rest1 in
          let client : (insert_block N C K ds b).0.client
              ≡ (execute_many N C K db (update ∷ tail)).0 =
            ap (λ d. d.client) at
            ∙ ap (λ d. d.client) fields
            ∙ ap (λ ss. (execute_many N C K db ss).0) f in
          let set_rows : Session C.Json C.Text → Session C.Json C.Text = λ s. record s {
            tables = record s.tables { transaction = s.tables.transaction ++ rows };
          } in
          let set_bytes : Session C.Json C.Text → Session C.Json C.Text = λ s. record s {
            tables = record s.tables {
              payload = set_payload bytes (as_i32 b.size) h s.tables.payload;
            };
          } in
          (
            bytes,
            rows,
            listed,
            encoded,
            ap laws.session (client ∙ same1)
                ∙ at2
                ∙ ap set_rows at1
                ∙ ap (λ s. set_rows (set_bytes s)) begun,
            ap (λ s. s.failed) (sym begun) ∙ sound,
            ap (λ d. d.tx_in_progress) at ∙ ap (λ d. d.tx_in_progress) fields ∙ keeps,
            ap (λ d. d.leaf_stream) at ∙ ap (λ d. d.leaf_stream) fields ∙ leaves,
            ap (λ d. d.block_stream) at
                ∙ ap (λ c. push c b) (ap (λ d. d.block_stream) fields ∙ blocks),
          )

      -- An insertion changes nothing that is durable, whether it succeeds or not.
      pub insert_block-durable :
          (ds : SqlDataSource N C K) (b : BlockQueryData N)
          → IsSynced N C K laws ds
          → ((session_of N C K laws (insert_block N C K ds b).0).durable
              ≡ (session_of N C K laws ds).durable)
            × IsSynced N C K laws (insert_block N C K ds b).0
            × ((insert_block N C K ds b).0.leaf_stream.sent ≡ ds.leaf_stream.sent)
            × ((insert_block N C K ds b).0.tx_in_progress ≡ false
                → (session_of N C K laws (insert_block N C K ds b).0 ≡ session_of N C K laws ds)
                  × (ds.tx_in_progress ≡ false))
      unfolding insert_block push AllChange
      insert_block-durable ds b sync = elim (Result-cases (block_statements N C b)) [
        | inr (e, f) ↦ (
          ground (arith, f),
          ground (arith, f, sync),
          ground (arith, f),
          λ rest. (ground (arith, f), ground (arith, f, rest)),
        )
        | inl (stmts, f) ↦
            let (bytes, rows, _, _, listed) = block_statements-ok N C b stmts f in
            let change =
              subst AllChange (sym listed) (sets_payload, transaction_statement-AllChange rows) in
            let (same, synced, leaves, idle) =
              run_statements-durable N C K laws ds stmts change sync in
            elim (Result-cases (run_statements N C K ds stmts).1) [
              | inl (u, g) ↦ (
                ground (arith, f, g, same),
                ground (arith, f, g, synced),
                ground (arith, f, g, leaves),
                λ rest.
                    let (as_before, unopened) = idle (ground (arith, f, g, rest)) in
                    (ground (arith, f, g, as_before), unopened),
              )
              | inr (e, g) ↦ (
                ground (arith, f, g, same),
                ground (arith, f, g, synced),
                ground (arith, f, g, leaves),
                λ rest.
                    let (as_before, unopened) = idle (ground (arith, f, g, rest)) in
                    (ground (arith, f, g, as_before), unopened),
              )
            ]
      ]
