-- ===== src/Sql/BlockRows.antt =====
-- The rows and the statements of a block in src/data_source/sql.rs.
use hotshot_query_service.Prelude.{
  ℕ, some, List, [], ◌∷◌, ◌++◌, ok, Result-cases, Option-cases, ◌≡◌, refl, sym, ap, ◌∙◌, inl, inr,
  arith, append-nil, append_assoc, ap₂, length, length-append, ok-injective, ◌+◌,
}
use Prim.Native.String.{String}
use hotshot_query_service.NodeTypes.{NodeTypes}
use hotshot_query_service.Availability.QueryData.{BlockQueryData, block_height}
use hotshot_query_service.Availability.Payload.{transaction as payload_transaction}
use hotshot_query_service.Sql.Client.{
  Encodings, Param, bigint, integer, text, json, bytea, as_i64, as_i32,
}
use hotshot_query_service.Sql.Tables.{TransactionRow}
use hotshot_query_service.Sql.Postgres.{values_text, row_params}
use hotshot_query_service.Sql.Defs.{
  Statement, block_statements, transaction_rows, row_text, transaction_statement,
  update_payload_text,
}

module _ (N : NodeTypes) (C : Encodings N) where
  abbrev pub update_of : BlockQueryData N → List ℕ → Statement N C
  update_of b bytes = (
    update_payload_text,
    bytea bytes ∷ integer (as_i32 b.size) ∷ bigint (as_i64 (block_height N b)) ∷ [],
  )

  -- The rows of `transaction` that list the transactions of a block at these indices.
  unfoldable pub Lists :
      BlockQueryData N → List N.TransactionIndex → List (TransactionRow C.Json C.Text) → Type 0
  Lists b [] [] = Unit
  Lists b [] (r ∷ rows) = ⊥
  Lists b (ix ∷ ixs) [] = ⊥
  Lists b (ix ∷ ixs) (r ∷ rows) =
      ((txn : N.Transaction) × (payload_transaction N b.payload ix ≡ some txn)
        × (r.hash ≡ C.transaction_hash_text (N.commit_transaction txn)))
      × (C.index_to_json ix ≡ ok r.index)
      × (r.block_height ≡ as_i64 (block_height N b))
      × Lists b ixs rows

  transaction_rows_lem :
      (b : BlockQueryData N) (ixs : List N.TransactionIndex) (values : List String)
      (params : List (Param C.Json C.Text)) (res : List String × List (Param C.Json C.Text))
      → transaction_rows N C b ixs values params ≡ ok res
      → (rows : List (TransactionRow C.Json C.Text)) × Lists b ixs rows
        × (res.0 ≡ values ++ values_text (length params) rows)
        × (res.1 ≡ params ++ row_params rows)
  unfolding transaction_rows Lists values_text row_params
  transaction_rows_lem b [] values params res e =
      let at = ok-injective e in
      (
        [],
        tt,
        sym (ap (λ r. r.0) at) ∙ sym (append-nil values),
        sym (ap (λ r. r.1) at) ∙ sym (append-nil params),
      )
  transaction_rows_lem b (ix ∷ ixs) values params res e =
      elim (Option-cases (payload_transaction N b.payload ix)) [
        | inl f ↦ absurd (ground (arith, e, f))
        | inr (txn, f) ↦ elim (Result-cases (C.index_to_json ix)) [
          | inr (x, g) ↦ absurd (ground (arith, e, f, g))
          | inl (j, g) ↦
              let hash = C.transaction_hash_text (N.commit_transaction txn) in
              let h = as_i64 (block_height N b) in
              let r : TransactionRow C.Json C.Text = record {
                hash = hash;
                block_height = h;
                index = j;
              } in
              let v = row_text (length params) in
              let three : List (Param C.Json C.Text) = text hash ∷ bigint h ∷ json j ∷ [] in
              let (rows, listed, at, at') =
                transaction_rows_lem b ixs (values ++ (v ∷ [])) (params ++ three) res
                  (ground (arith, e, f, g)) in
              let more : length (params ++ three) ≡ length params + 3 =
                length-append params three in
              (
                r ∷ rows,
                ((txn, f, refl), g, refl, listed),
                at
                    ∙ append_assoc values (v ∷ []) (values_text (length (params ++ three)) rows)
                    ∙ ap (λ n. values ++ (v ∷ values_text n rows)) more,
                at' ∙ append_assoc params three (row_params rows),
              )
        ]
      ]

  pub block_statements-ok :
      (b : BlockQueryData N) (stmts : List (Statement N C))
      → block_statements N C b ≡ ok stmts
      → (bytes : List ℕ) × (rows : List (TransactionRow C.Json C.Text)) × Lists b
          (N.iter b.payload)
          rows
        × (N.encode b.payload ≡ some bytes)
        × (stmts
            ≡ update_of b bytes ∷ transaction_statement N C (values_text 0 rows) (row_params rows))
  unfolding block_statements
  block_statements-ok b stmts e = elim (Option-cases (N.encode b.payload)) [
    | inl f ↦ absurd (ground (arith, e, f))
    | inr (bytes, f) ↦ elim (Result-cases (transaction_rows N C b (N.iter b.payload) [] [])) [
      | inr (x, g) ↦ absurd (ground (arith, e, f, g))
      | inl (res, g) ↦
          let (rows, listed, h, k) = transaction_rows_lem b (N.iter b.payload) [] [] res g in
          let here : stmts ≡ update_of b bytes ∷ transaction_statement N C res.0 res.1 =
            ground (arith, e, f, g) in
          (
            bytes,
            rows,
            listed,
            f,
            here ∙ ap₂ (λ v q. update_of b bytes ∷ transaction_statement N C v q) h k,
          )
    ]
  ]
