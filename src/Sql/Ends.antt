-- ===== src/Sql/Ends.antt =====
-- What `commit` and `revert` of src/data_source/sql.rs do to the session when they succeed.
use hotshot_query_service.Prelude.{
  false, ◌≡◌, sym, ap, ◌∙◌, subst, arith, Bool-cases, Result-cases, inl, inr, if◌then◌else◌,
}
use hotshot_query_service.NodeTypes.{NodeTypes}
use hotshot_query_service.AppendLog.{IsOk}
use hotshot_query_service.Channel.{flush, clear}
use hotshot_query_service.Sql.Client.{Client, Encodings}
use hotshot_query_service.Sql.Tables.{Session, Tables, committed, rolled_back}
use hotshot_query_service.Sql.Postgres.{PostgresLaws}
use hotshot_query_service.Sql.Sessions.{session_of, IsSynced}
use hotshot_query_service.Sql.Defs.{SqlDataSource, commit_transaction, commit, roll_back, revert}

module _ (N : NodeTypes) (C : Encodings N) (K : Client C.Json C.Text) (laws : PostgresLaws K) where
  -- A session in which nothing is in progress, on these tables.
  abbrev pub quiet : Tables C.Json C.Text → Session C.Json C.Text
  quiet t = record { durable = t; tables = t; in_transaction = false; failed = false }

  pub commit_fields :
      (ds : SqlDataSource N C K)
      → IsOk (commit N C K ds).1
      → IsOk (commit_transaction N C K ds).1
        × ((commit N C K ds).0 ≡ record (commit_transaction N C K ds).0 {
          leaf_stream = flush (commit_transaction N C K ds).0.leaf_stream;
          block_stream = flush (commit_transaction N C K ds).0.block_stream;
        })
  unfolding commit
  commit_fields ds good = ground arith

  -- A commit of a session that has not failed makes durable what is visible, and broadcasts.
  pub commit_lem :
      (ds : SqlDataSource N C K)
      → IsSynced N C K laws ds
      → (session_of N C K laws ds).failed ≡ false
      → (ds.tx_in_progress ≡ false
          → (session_of N C K laws ds).durable ≡ (session_of N C K laws ds).tables)
      → IsOk (commit N C K ds).1
      → (session_of N C K laws (commit N C K ds).0 ≡ quiet (session_of N C K laws ds).tables)
        × ((commit N C K ds).0.tx_in_progress ≡ false)
        × ((commit N C K ds).0.leaf_stream ≡ flush ds.leaf_stream)
        × ((commit N C K ds).0.block_stream ≡ flush ds.block_stream)
  unfolding commit_transaction committed
  commit_lem ds sync sound idle good =
      let (ended, fields) = commit_fields ds good in
      let s = session_of N C K laws ds in
      let clean : committed C.Json C.Text s ≡ quiet s.tables =
        ap
          (λ b.
            if b
            then record {
              durable = s.durable;
              tables = s.durable;
              in_transaction = false;
              failed = false;
            }
            else record {
              durable = s.tables;
              tables = s.tables;
              in_transaction = false;
              failed = false;
            })
          sound in
      elim (Bool-cases ds.tx_in_progress) [
        | inr e ↦
            let as_quiet : s ≡ quiet s.tables =
              ap (λ b. record s { in_transaction = b }) (sync ∙ e)
              ∙ ap (λ b. record s { in_transaction = false; failed = b }) sound
              ∙ ap
                  (λ t. record {
                    durable = t;
                    tables = s.tables;
                    in_transaction = false;
                    failed = false;
                  })
                  (idle e) in
            (
              ap (λ d. laws.session d.client) fields ∙ ground (arith, e, as_quiet),
              ap (λ d. d.tx_in_progress) fields ∙ ground (arith, e),
              ap (λ d. d.leaf_stream) fields ∙ ground (arith, e),
              ap (λ d. d.block_stream) fields ∙ ground (arith, e),
            )
        | inl e ↦ elim (Result-cases (K.batch_execute ds.client "COMMIT").1) [
          | inr (x, f) ↦ absurd (ground (arith, e, f))
          | inl (u, f) ↦
              let at = laws.commit-ok ds.client (subst IsOk (sym f) tt) ∙ clean in
              (
                ap (λ d. laws.session d.client) fields ∙ ground (arith, e, f, at),
                ap (λ d. d.tx_in_progress) fields ∙ ground (arith, e, f),
                ap (λ d. d.leaf_stream) fields ∙ ground (arith, e, f),
                ap (λ d. d.block_stream) fields ∙ ground (arith, e, f),
              )
        ]
      ]

  revert_fields :
      (ds : SqlDataSource N C K)
      → IsOk (revert N C K ds).1
      → IsOk (roll_back N C K ds).1
        × ((revert N C K ds).0 ≡ record (roll_back N C K ds).0 {
          leaf_stream = clear (roll_back N C K ds).0.leaf_stream;
          block_stream = clear (roll_back N C K ds).0.block_stream;
        })
  unfolding revert
  revert_fields ds good = ground arith

  -- A revert brings back what is durable, also in a session that has failed, and broadcasts nothing.
  pub revert_lem :
      (ds : SqlDataSource N C K)
      → (ds.tx_in_progress ≡ false
          → session_of N C K laws ds ≡ quiet (session_of N C K laws ds).durable)
      → IsOk (revert N C K ds).1
      → (session_of N C K laws (revert N C K ds).0 ≡ quiet (session_of N C K laws ds).durable)
        × ((revert N C K ds).0.tx_in_progress ≡ false)
        × ((revert N C K ds).0.leaf_stream ≡ clear ds.leaf_stream)
        × ((revert N C K ds).0.block_stream ≡ clear ds.block_stream)
  unfolding roll_back rolled_back
  revert_lem ds idle good =
      let (ended, fields) = revert_fields ds good in
      elim (Bool-cases ds.tx_in_progress) [
        | inr e ↦
            let as_quiet = idle e in
            (
              ap (λ d. laws.session d.client) fields ∙ ground (arith, e, as_quiet),
              ap (λ d. d.tx_in_progress) fields ∙ ground (arith, e),
              ap (λ d. d.leaf_stream) fields ∙ ground (arith, e),
              ap (λ d. d.block_stream) fields ∙ ground (arith, e),
            )
        | inl e ↦ elim (Result-cases (K.batch_execute ds.client "ROLLBACK").1) [
          | inr (x, f) ↦ absurd (ground (arith, e, f))
          | inl (u, f) ↦
              let at = laws.rollback-ok ds.client (subst IsOk (sym f) tt) in
              (
                ap (λ d. laws.session d.client) fields ∙ ground (arith, e, f, at),
                ap (λ d. d.tx_in_progress) fields ∙ ground (arith, e, f),
                ap (λ d. d.leaf_stream) fields ∙ ground (arith, e, f),
                ap (λ d. d.block_stream) fields ∙ ground (arith, e, f),
              )
        ]
      ]
