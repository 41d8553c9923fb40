-- ===== src/Sql/LeafRows.antt =====
-- The rows and the statements of a leaf in src/data_source/sql.rs.
use hotshot_query_service.Prelude.{
  none, List, [], ◌∷◌, ◌++◌, ok, Result-cases, ◌≡◌, inl, inr, arith,
}
use hotshot_query_service.NodeTypes.{NodeTypes}
use hotshot_query_service.Availability.QueryData.{
  LeafQueryData, leaf_height, leaf_hash, leaf_block_hash, proposer,
}
use hotshot_query_service.Sql.Client.{Encodings, bigint, text, json, as_i64}
use hotshot_query_service.Sql.Tables.{Tables, LeafRow}
use hotshot_query_service.Sql.Defs.{
  Statement, leaf_statements, insert_header_text, insert_payload_text, insert_leaf_text,
}

module _ (N : NodeTypes) (C : Encodings N) where
  -- The encodings of a leaf.
  pub record LeafJson (l : LeafQueryData N) : Type 0 where
    pub header_json : C.Json
    pub leaf_json : C.Json
    pub qc_json : C.Json
    pub header_ok : C.header_to_json (N.block_header l.leaf) ≡ ok header_json
    pub leaf_ok : C.leaf_to_json l.leaf ≡ ok leaf_json
    pub qc_ok : C.qc_to_json l.qc ≡ ok qc_json

  -- The row of a leaf.
  abbrev pub row_of : (l : LeafQueryData N) → LeafJson l → LeafRow C.Json C.Text
  row_of l j = record {
    height = as_i64 (leaf_height N l);
    hash = C.leaf_hash_text (leaf_hash N l);
    proposer = C.key_text (proposer N l);
    block_hash = C.block_hash_text (leaf_block_hash N l);
    leaf = j.leaf_json;
    qc = j.qc_json;
  }

  -- The tables with the rows of a leaf, its header and a payload that is to come.
  abbrev pub with_leaf :
      Tables C.Json C.Text → (l : LeafQueryData N) → LeafJson l → Tables C.Json C.Text
  with_leaf tables l j = record {
    header =
        tables.header
        ++ (record {
          height = as_i64 (leaf_height N l);
          hash = C.block_hash_text (leaf_block_hash N l);
          header_data = j.header_json;
        }
            ∷ []);
    payload =
        tables.payload
        ++ (record { height = as_i64 (leaf_height N l); size = none; bytes = none } ∷ []);
    leaf = tables.leaf ++ (row_of l j ∷ []);
    transaction = tables.transaction;
  }

  -- The statements of a leaf with its encodings.
  abbrev pub statements_of : (l : LeafQueryData N) → LeafJson l → List (Statement N C)
  statements_of l j =
      (
        insert_header_text,
        bigint (as_i64 (leaf_height N l))
            ∷ text (C.block_hash_text (leaf_block_hash N l))
            ∷ json j.header_json
            ∷ [],
      )
      ∷ (insert_payload_text, bigint (as_i64 (leaf_height N l)) ∷ [])
      ∷ (
        insert_leaf_text,
        bigint (as_i64 (leaf_height N l))
            ∷ text (C.leaf_hash_text (leaf_hash N l))
            ∷ text (C.key_text (proposer N l))
            ∷ text (C.block_hash_text (leaf_block_hash N l))
            ∷ json j.leaf_json
            ∷ json j.qc_json
            ∷ [],
      )
      ∷ []

  pub leaf_statements-ok :
      (l : LeafQueryData N) (stmts : List (Statement N C))
      → leaf_statements N C l ≡ ok stmts
      → (j : LeafJson l) × (stmts ≡ statements_of l j)
  unfolding leaf_statements
  leaf_statements-ok l stmts e = elim (Result-cases (C.header_to_json (N.block_header l.leaf))) [
    | inr (x, f) ↦ absurd (ground (arith, e, f))
    | inl (hj, f) ↦ elim (Result-cases (C.leaf_to_json l.leaf)) [
      | inr (x, g) ↦ absurd (ground (arith, e, f, g))
      | inl (lj, g) ↦ elim (Result-cases (C.qc_to_json l.qc)) [
        | inr (x, h) ↦ absurd (ground (arith, e, f, g, h))
        | inl (qj, h) ↦ (
          record {
            header_json = hj;
            leaf_json = lj;
            qc_json = qj;
            header_ok = f;
            leaf_ok = g;
            qc_ok = h;
          },
          ground (arith, e, f, g, h),
        )
      ]
    ]
  ]
