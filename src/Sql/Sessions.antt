-- ===== src/Sql/Sessions.antt =====
-- What the methods of src/data_source/sql.rs that change the database do to the session of their client.
use hotshot_query_service.Prelude.{
  List, [], ◌∷◌, true, err, Result-cases, Bool-cases, ◌≡◌, refl, sym, ap, ◌∙◌, inl, inr, arith,
  subst,
}
use Prim.Native.String.{String}
use hotshot_query_service.NodeTypes.{NodeTypes}
use hotshot_query_service.AppendLog.{IsOk}
use hotshot_query_service.Sql.Client.{Client, Encodings, Param}
use hotshot_query_service.Sql.Tables.{Session, begin}
use hotshot_query_service.Sql.Postgres.{PostgresLaws, Changes}
use hotshot_query_service.Sql.Defs.{SqlDataSource, Statement, execute, execute_many, transaction}

-- All the statements add or change rows.
unfoldable pub AllChange : {A : Type 0} → List (String × A) → Type 0
AllChange [] = Unit
AllChange ((stmt, params) ∷ stmts) = Changes stmt × AllChange stmts

module _ (N : NodeTypes) (C : Encodings N) (K : Client C.Json C.Text) (laws : PostgresLaws K) where
  abbrev pub session_of : SqlDataSource N C K → Session C.Json C.Text
  session_of ds = laws.session ds.client

  -- The data source knows whether a transaction is in progress.
  abbrev pub IsSynced : SqlDataSource N C K → Type 0
  IsSynced ds = (session_of ds).in_transaction ≡ ds.tx_in_progress

  -- A transaction that is opened, or in progress already, changes no table.
  pub transaction_lem :
      (ds : SqlDataSource N C K)
      → IsSynced ds
      → IsOk (transaction N C K ds).1
      → (session_of (transaction N C K ds).0 ≡ begin C.Json C.Text (session_of ds))
        × ((transaction N C K ds).0.tx_in_progress ≡ true)
        × ((transaction N C K ds).0.leaf_stream ≡ ds.leaf_stream)
        × ((transaction N C K ds).0.block_stream ≡ ds.block_stream)
  unfolding transaction begin
  transaction_lem ds sync good = elim (Bool-cases ds.tx_in_progress) [
    | inl e ↦
        let at : session_of ds ≡ begin C.Json C.Text (session_of ds) =
          ap (λ b. record (session_of ds) { in_transaction = b }) (sync ∙ e) in
        ground (arith, at)
    | inr e ↦ elim (Result-cases (K.batch_execute ds.client "BEGIN").1) [
      | inl (u, f) ↦ let at = laws.begin-ok ds.client (subst IsOk (sym f) tt) in ground (arith, at)
      | inr (x, f) ↦ absurd (ground (arith, e, f))
    ]
  ]

  pub transaction_failed :
      (ds : SqlDataSource N C K) (e : String)
      → (transaction N C K ds).1 ≡ err e
      → (session_of (transaction N C K ds).0 ≡ session_of ds)
        × ((transaction N C K ds).0.tx_in_progress ≡ ds.tx_in_progress)
        × ((transaction N C K ds).0.leaf_stream ≡ ds.leaf_stream)
        × ((transaction N C K ds).0.block_stream ≡ ds.block_stream)
  unfolding transaction
  transaction_failed ds e bad = ground (arith, laws.begin-err ds.client e)

  pub execute_many-cons :
      (db : K.Db) (stmt : String) (params : List (Param C.Json C.Text))
      (stmts : List (Statement N C))
      → IsOk (execute_many N C K db ((stmt, params) ∷ stmts)).1
      → IsOk (K.execute_raw db stmt params).1
        × IsOk (execute_many N C K (K.execute_raw db stmt params).0 stmts).1
        × ((execute_many N C K db ((stmt, params) ∷ stmts)).0
            ≡ (execute_many N C K (K.execute_raw db stmt params).0 stmts).0)
  unfolding execute_many execute
  execute_many-cons db stmt params stmts good = ground arith

  -- The statements of a transaction change nothing that is durable.
  pub execute_many-durable :
      (stmts : List (Statement N C)) (db : K.Db)
      → AllChange stmts
      → (laws.session db).in_transaction ≡ true
      → ((laws.session (execute_many N C K db stmts).0).durable ≡ (laws.session db).durable)
        × ((laws.session (execute_many N C K db stmts).0).in_transaction ≡ true)
  unfolding execute_many execute AllChange
  execute_many-durable [] db change open_ = (refl, open_)
  execute_many-durable ((stmt, params) ∷ stmts) db (one, others) open_ =
      let (same, still) = laws.execute-durable db stmt params one open_ in
      let (same', still') =
        execute_many-durable stmts (K.execute_raw db stmt params).0 others still in
      ground arith
