-- ===== src/Sql/Inserts.antt =====
-- What `insert_leaf` of src/data_source/sql.rs does to the session when it succeeds, and what it leaves
-- alone when it fails.
use hotshot_query_service.Prelude.{
  none, List, [], ◌∷◌, ◌++◌, true, false, ok, Result-cases, ◌≡◌, sym, ap, ◌∙◌, inl, inr, arith,
  subst,
}
use hotshot_query_service.NodeTypes.{NodeTypes}
use hotshot_query_service.AppendLog.{IsOk}
use hotshot_query_service.Channel.{push}
use hotshot_query_service.Availability.QueryData.{
  LeafQueryData, leaf_height, leaf_hash, leaf_block_hash, proposer,
}
use hotshot_query_service.Sql.Client.{Client, Encodings, bigint, text, json, as_i64}
use hotshot_query_service.Sql.Tables.{Session, begin, find_leaf, find_header, find_payload}
use hotshot_query_service.Sql.Postgres.{PostgresLaws, adds_header, adds_payload, adds_leaf}
use hotshot_query_service.Sql.Sessions.{
  AllChange, session_of, IsSynced, transaction_lem, execute_many-cons, execute_many-durable,
  transaction_failed,
}
use hotshot_query_service.Sql.Defs.{
  SqlDataSource, Statement, execute_many, transaction, run_statements, leaf_statements, insert_leaf,
  insert_header_text, insert_payload_text, insert_leaf_text,
}
use hotshot_query_service.Sql.LeafRows.{
  LeafJson, row_of, with_leaf, statements_of, leaf_statements-ok,
}

module _ (N : NodeTypes) (C : Encodings N) where
  statements_of-AllChange :
      (l : LeafQueryData N) (j : LeafJson N C l) → AllChange (statements_of N C l j)
  unfolding AllChange
  statements_of-AllChange l j = (adds_header, (adds_payload, (adds_leaf, tt)))

  module _ (K : Client C.Json C.Text) where
    pub run_statements_fields :
        (ds : SqlDataSource N C K) (stmts : List (Statement N C))
        → IsOk (run_statements N C K ds stmts).1
        → IsOk (transaction N C K ds).1
          × IsOk (execute_many N C K (transaction N C K ds).0.client stmts).1
          × ((run_statements N C K ds stmts).0 ≡ record (transaction N C K ds).0 {
            client = (execute_many N C K (transaction N C K ds).0.client stmts).0;
          })
    unfolding run_statements
    run_statements_fields ds stmts good = ground arith

    insert_leaf_fields :
        (ds : SqlDataSource N C K) (l : LeafQueryData N)
        → IsOk (insert_leaf N C K ds l).1
        → (stmts : List (Statement N C)) × (leaf_statements N C l ≡ ok stmts)
          × IsOk (run_statements N C K ds stmts).1
          × ((insert_leaf N C K ds l).0 ≡ record (run_statements N C K ds stmts).0 {
            leaf_stream = push (run_statements N C K ds stmts).0.leaf_stream l;
          })
    unfolding insert_leaf push
    insert_leaf_fields ds l good = elim (Result-cases (leaf_statements N C l)) [
      | inr (x, f) ↦ absurd (ground (arith, f))
      | inl (stmts, f) ↦ (stmts, f, ground (arith, f), ground (arith, f))
    ]

    module _ (laws : PostgresLaws K) where
      -- Statements that run change nothing that is durable, whether they succeed or not.
      pub run_statements-durable :
          (ds : SqlDataSource N C K) (stmts : List (Statement N C))
          → AllChange stmts
          → IsSynced N C K laws ds
          → ((session_of N C K laws (run_statements N C K ds stmts).0).durable
              ≡ (session_of N C K laws ds).durable)
            × IsSynced N C K laws (run_statements N C K ds stmts).0
            × ((run_statements N C K ds stmts).0.leaf_stream ≡ ds.leaf_stream)
            × ((run_statements N C K ds stmts).0.tx_in_progress ≡ false
                → (session_of N C K laws (run_statements N C K ds stmts).0
                    ≡ session_of N C K laws ds)
                  × (ds.tx_in_progress ≡ false))
      unfolding run_statements begin
      run_statements-durable ds stmts change sync = elim (Result-cases (transaction N C K ds).1) [
        | inr (e, f) ↦
            let (same, keeps, leaves, blocks) = transaction_failed N C K laws ds e f in
            (
              ground (arith, f, same),
              ground (arith, f, same, keeps, sync),
              ground (arith, f, leaves),
              λ idle. (ground (arith, f, same), ground (arith, f, keeps, idle)),
            )
        | inl (u, f) ↦
            let (at, keeps, leaves, blocks) =
              transaction_lem N C K laws ds sync (subst IsOk (sym f) tt) in
            let open_ : (laws.session (transaction N C K ds).0.client).in_transaction ≡ true =
              ap (λ s. s.in_transaction) at in
            let (same, still) =
              execute_many-durable N C K laws stmts (transaction N C K ds).0.client change open_ in
            (
              ground (arith, f, at, same),
              ground (arith, f, keeps, still),
              ground (arith, f, leaves),
              λ idle. absurd (ground (arith, f, keeps, idle)),
            )
      ]

      -- The rows of a leaf, in the tables.
      leaf_executed :
          (db : K.Db) (l : LeafQueryData N) (j : LeafJson N C l)
          → (laws.session db).in_transaction ≡ true
          → IsOk (execute_many N C K db (statements_of N C l j)).1
          → (laws.session (execute_many N C K db (statements_of N C l j)).0
              ≡ record (laws.session db) { tables = with_leaf N C (laws.session db).tables l j })
            × ((laws.session db).failed ≡ false)
            × (find_header (as_i64 (leaf_height N l)) (laws.session db).tables.header ≡ none)
            × (find_payload (as_i64 (leaf_height N l)) (laws.session db).tables.payload ≡ none)
            × (find_leaf (as_i64 (leaf_height N l)) (laws.session db).tables.leaf ≡ none)
      unfolding execute_many
      leaf_executed db l j open_ good =
          let h = as_i64 (leaf_height N l) in
          let hash = C.block_hash_text (leaf_block_hash N l) in
          let header : Statement N C =
            (insert_header_text, bigint h ∷ text hash ∷ json j.header_json ∷ []) in
          let payload : Statement N C = (insert_payload_text, bigint h ∷ []) in
          let leaf : Statement N C = (
            insert_leaf_text,
            bigint h
                ∷ text (C.leaf_hash_text (leaf_hash N l))
                ∷ text (C.key_text (proposer N l))
                ∷ text hash
                ∷ json j.leaf_json
                ∷ json j.qc_json
                ∷ [],
          ) in
          let db1 = (K.execute_raw db header.0 header.1).0 in
          let db2 = (K.execute_raw db1 payload.0 payload.1).0 in
          let (good1, rest1, same1) =
            execute_many-cons N C K laws db header.0 header.1 (payload ∷ leaf ∷ []) good in
          let (good2, rest2, same2) =
            execute_many-cons N C K laws db1 payload.0 payload.1 (leaf ∷ []) rest1 in
          let (good3, rest3, same3) = execute_many-cons N C K laws db2 leaf.0 leaf.1 [] rest2 in
          let open1 = (laws.execute-durable db header.0 header.1 adds_header open_).1 in
          let open2 = (laws.execute-durable db1 payload.0 payload.1 adds_payload open1).1 in
          let (at1, sound, new1) = laws.insert_header db h hash j.header_json open_ good1 in
          let (at2, _, new2) = laws.insert_payload db1 h open1 good2 in
          let (at3, _, new3) =
            laws.insert_leaf db2 h (C.leaf_hash_text (leaf_hash N l)) (C.key_text (proposer N l))
              hash j.leaf_json j.qc_json open2 good3 in
          let add_leaf : Session C.Json C.Text → Session C.Json C.Text = λ s. record s {
            tables = record s.tables { leaf = s.tables.leaf ++ (row_of N C l j ∷ []) };
          } in
          let add_payload : Session C.Json C.Text → Session C.Json C.Text = λ s. record s {
            tables = record s.tables {
              payload = s.tables.payload ++ (record { height = h; size = none; bytes = none } ∷ []);
            };
          } in
          (
            ap laws.session (same1 ∙ same2 ∙ same3)
                ∙ at3
                ∙ ap add_leaf at2
                ∙ ap (λ s. add_leaf (add_payload s)) at1,
            sound,
            new1,
            ap (λ s. find_payload h s.tables.payload) (sym at1) ∙ new2,
            ap (λ s. find_leaf h s.tables.leaf) (sym at1)
                ∙ ap (λ s. find_leaf h s.tables.leaf) (sym at2)
                ∙ new3,
          )

      -- An insertion of a leaf that succeeds adds its rows, and none with its height was there; the leaf
      -- is pending.
      pub insert_leaf_lem :
          (ds : SqlDataSource N C K) (l : LeafQueryData N)
          → IsSynced N C K laws ds
          → IsOk (insert_leaf N C K ds l).1
          → (j : LeafJson N C l) × (session_of N C K laws (insert_leaf N C K ds l).0
              ≡ record (session_of N C K laws ds) {
                in_transaction = true;
                tables = with_leaf N C (session_of N C K laws ds).tables l j;
              })
            × ((session_of N C K laws ds).failed ≡ false)
            × (find_header (as_i64 (leaf_height N l)) (session_of N C K laws ds).tables.header
                ≡ none)
            × (find_payload (as_i64 (leaf_height N l)) (session_of N C K laws ds).tables.payload
                ≡ none)
            × (find_leaf (as_i64 (leaf_height N l)) (session_of N C K laws ds).tables.leaf ≡ none)
            × ((insert_leaf N C K ds l).0.tx_in_progress ≡ true)
            × ((insert_leaf N C K ds l).0.leaf_stream ≡ push ds.leaf_stream l)
            × ((insert_leaf N C K ds l).0.block_stream ≡ ds.block_stream)
      unfolding begin
      insert_leaf_lem ds l sync good =
          let s0 = session_of N C K laws ds in
          let h = as_i64 (leaf_height N l) in
          let (stmts, e, ran, at) = insert_leaf_fields ds l good in
          let (j, f) = leaf_statements-ok N C l stmts e in
          let (opened, executed, fields) = run_statements_fields ds stmts ran in
          let (begun, keeps, leaves, blocks) = transaction_lem N C K laws ds sync opened in
          let db = (transaction N C K ds).0.client in
          let executed' : IsOk (execute_many N C K db (statements_of N C l j)).1 =
            subst (λ ss. IsOk (execute_many N C K db ss).1) f executed in
          let (put, sound, new1, new2, new3) =
            leaf_executed db l j (ap (λ s. s.in_transaction) begun) executed' in
          let client : (insert_leaf N C K ds l).0.client
              ≡ (execute_many N C K db (statements_of N C l j)).0 =
            ap (λ d. d.client) at
            ∙ ap (λ d. d.client) fields
            ∙ ap (λ ss. (execute_many N C K db ss).0) f in
          (
            j,
            ap laws.session client
                ∙ put
                ∙ ap {A = Session C.Json C.Text} {B = Session C.Json C.Text}
                    (λ s. record s { tables = with_leaf N C s.tables l j }) begun,
            ap (λ s. s.failed) (sym begun) ∙ sound,
            ap (λ s. find_header h s.tables.header) (sym begun) ∙ new1,
            ap (λ s. find_payload h s.tables.payload) (sym begun) ∙ new2,
            ap (λ s. find_leaf h s.tables.leaf) (sym begun) ∙ new3,
            ap (λ d. d.tx_in_progress) at ∙ ap (λ d. d.tx_in_progress) fields ∙ keeps,
            ap (λ d. d.leaf_stream) at
                ∙ ap (λ c. push c l) (ap (λ d. d.leaf_stream) fields ∙ leaves),
            ap (λ d. d.block_stream) at ∙ ap (λ d. d.block_stream) fields ∙ blocks,
          )

      -- An insertion changes nothing that is durable, whether it succeeds or not.
      pub insert_leaf-durable :
          (ds : SqlDataSource N C K) (l : LeafQueryData N)
          → IsSynced N C K laws ds
          → ((session_of N C K laws (insert_leaf N C K ds l).0).durable
              ≡ (session_of N C K laws ds).durable)
            × IsSynced N C K laws (insert_leaf N C K ds l).0
            × ((insert_leaf N C K ds l).0.leaf_stream.sent ≡ ds.leaf_stream.sent)
            × ((insert_leaf N C K ds l).0.tx_in_progress ≡ false
                → (session_of N C K laws (insert_leaf N C K ds l).0 ≡ session_of N C K laws ds)
                  × (ds.tx_in_progress ≡ false))
      unfolding insert_leaf push
      insert_leaf-durable ds l sync = elim (Result-cases (leaf_statements N C l)) [
        | inr (e, f) ↦ (
          ground (arith, f),
          ground (arith, f, sync),
          ground (arith, f),
          λ rest. (ground (arith, f), ground (arith, f, rest)),
        )
        | inl (stmts, f) ↦
            let (j, listed) = leaf_statements-ok N C l stmts f in
            let change = subst AllChange (sym listed) (statements_of-AllChange l j) in
            let (same, synced, leaves, idle) = run_statements-durable ds stmts change sync in
            elim (Result-cases (run_statements N C K ds stmts).1) [
              | inl (u, g) ↦ (
                ground (arith, f, g, same),
                ground (arith, f, g, synced),
                ground (arith, f, g, leaves),
                λ rest.
                    let (as_before, unopened) = idle (ground (arith, f, g, rest)) in
                    (ground (arith, f, g, as_before), unopened),
              )
              | inr (e, g) ↦ (
                ground (arith, f, g, same),
                ground (arith, f, g, synced),
                ground (arith, f, g, leaves),
                λ rest.
                    let (as_before, unopened) = idle (ground (arith, f, g, rest)) in
                    (ground (arith, f, g, as_before), unopened),
              )
            ]
      ]
