-- ===== src/Sql/Reads.antt =====
-- What the queries of src/data_source/sql.rs answer about the rows that its insertions store.
use hotshot_query_service.Prelude.{
  ℕ, Option, none, some, List, [], ◌∷◌, ◌++◌, Result, ok, err, ◌>>=◌, context, map_option, ◌≡◌, sym,
  ap, ◌∙◌, map_err, ◌<◌, ◌^◌,
}
use Prim.Native.String.{String}
use hotshot_query_service.NodeTypes.{NodeTypes}
use hotshot_query_service.AppendLog.{IsOk}
use hotshot_query_service.Errors.{QueryResult, failure, not_found_error, missing}
use hotshot_query_service.Availability.QueryData.{
  LeafQueryData, BlockQueryData, leaf_height, payload_size, leaf_block_hash,
}
use hotshot_query_service.FileSystem.Defs.{number}
use hotshot_query_service.Metrics.Values.{ℤ}
use hotshot_query_service.Sql.Client.{Client, Encodings, EncodingLaws, bigint, as_i64, as_i32}
use hotshot_query_service.Sql.Tables.{
  Session, LeafRow, HeaderRow, PayloadRow, eq_int, find_leaf, find_header, find_payload, find_block,
  set_payload,
}
use hotshot_query_service.Sql.Postgres.{PostgresLaws}
use hotshot_query_service.Sql.Sessions.{session_of, IsSynced}
use hotshot_query_service.Sql.Inserts.{insert_leaf_lem}
use hotshot_query_service.Sql.LeafRows.{row_of, LeafJson, with_leaf}
use hotshot_query_service.Sql.Blocks.{insert_block_lem}
use hotshot_query_service.Sql.Queries.{get_leaf, get_block, parse_leaf, parse_block, block_query}
use hotshot_query_service.Sql.Defs.{SqlDataSource, insert_leaf, insert_block}
use hotshot_query_service.Sql.Finds.{
  eq_int_refl, find_new, find_payload-set_payload, find_block_lem, as_usize-as_i32,
}

module _ (N : NodeTypes) (C : Encodings N) (coded : EncodingLaws C) (K : Client C.Json C.Text)
    (laws : PostgresLaws K) where
  -- What a query for a leaf by height answers, if it succeeds.
  pub get_leaf_lem :
      (ds : SqlDataSource N C K) (h : ℕ) (found : Option K.Row)
      → K.query_opt ds.client "SELECT leaf, qc FROM leaf WHERE height = $1" (bigint (as_i64 h) ∷ [])
        ≡ ok found
      → get_leaf N C K ds (number h)
        ≡ context not_found_error
            (map_option laws.leaf_row (find_leaf (as_i64 h) (session_of N C K laws ds).tables.leaf))
          >>= parse_leaf N C K
  unfolding get_leaf
  get_leaf_lem ds h found e =
      ap
        (λ (r : Result String (Option K.Row)).
          map_err failure r >>= (λ o. context not_found_error o >>= parse_leaf N C K))
        e
      ∙ ap (λ (o : Option K.Row). context not_found_error o >>= parse_leaf N C K)
          (laws.select_leaf ds.client (as_i64 h) found e)

  parse_leaf-row_of :
      (l : LeafQueryData N) (j : LeafJson N C l)
      → parse_leaf N C K (laws.leaf_row (row_of N C l j)) ≡ ok l
  unfolding parse_leaf
  parse_leaf-row_of l j = rw (
    laws.leaf_row-leaf (row_of N C l j),
    coded.leaf_round l.leaf j.leaf_json j.leaf_ok,
    laws.leaf_row-qc (row_of N C l j),
    coded.qc_round l.qc j.qc_json j.qc_ok,
  )

  -- A leaf whose insert succeeds is not found by its height before, and is found by its height
  -- after it and before any commit, where the queries succeed.
  pub insert_leaf_visible :
      (ds : SqlDataSource N C K) (l : LeafQueryData N) (found found' : Option K.Row)
      → IsSynced N C K laws ds
      → IsOk (insert_leaf N C K ds l).1
      → K.query_opt ds.client "SELECT leaf, qc FROM leaf WHERE height = $1"
          (bigint (as_i64 (leaf_height N l)) ∷ [])
        ≡ ok found
      → K.query_opt
          (insert_leaf N C K ds l).0.client
          "SELECT leaf, qc FROM leaf WHERE height = $1"
          (bigint (as_i64 (leaf_height N l)) ∷ [])
        ≡ ok found'
      → (get_leaf N C K ds (number (leaf_height N l)) ≡ err not_found_error)
        × (get_leaf N C K (insert_leaf N C K ds l).0 (number (leaf_height N l)) ≡ ok l)
  insert_leaf_visible ds l found found' sync good before after =
      let h = as_i64 (leaf_height N l) in
      let (j, at, _, _, _, new, _, _, _) = insert_leaf_lem N C K laws ds l sync good in
      let answer : Option (LeafRow C.Json C.Text) → QueryResult (LeafQueryData N) =
        λ r. context not_found_error (map_option laws.leaf_row r) >>= parse_leaf N C K in
      let here : find_leaf h ((session_of N C K laws ds).tables.leaf ++ (row_of N C l j ∷ []))
          ≡ some (row_of N C l j) =
        find_new (λ r. eq_int r.height h) (session_of N C K laws ds).tables.leaf (row_of N C l j)
          new (eq_int_refl h) in
      (
        get_leaf_lem ds (leaf_height N l) found before ∙ ap answer new,
        get_leaf_lem (insert_leaf N C K ds l).0 (leaf_height N l) found' after
            ∙ ap (λ s. answer (find_leaf h s.tables.leaf)) at
            ∙ ap answer here
            ∙ parse_leaf-row_of l j,
      )

  -- What a query for a block by height answers, if it succeeds.
  get_block_lem :
      (ds : SqlDataSource N C K) (h : ℕ) (found : Option K.Row)
      → K.query_opt ds.client (block_query "h.height = $1") (bigint (as_i64 h) ∷ []) ≡ ok found
      → get_block N C K ds (number h)
        ≡ context not_found_error (
            map_option
              (λ (b : HeaderRow C.Json C.Text × PayloadRow). laws.block_row b.0 b.1)
              (find_block (as_i64 h) (session_of N C K laws ds).tables))
          >>= parse_block N C K
  unfolding get_block
  get_block_lem ds h found e =
      ap
        (λ (r : Result String (Option K.Row)).
          map_err failure r >>= (λ o. context not_found_error o >>= parse_block N C K))
        e
      ∙ ap (λ (o : Option K.Row). context not_found_error o >>= parse_block N C K)
          (laws.select_block ds.client (as_i64 h) found e)

  -- A row without a payload.
  parse_block-missing :
      (r : HeaderRow C.Json C.Text) (h : ℤ)
      → parse_block N C K (laws.block_row r (record { height = h; size = none; bytes = none }))
        ≡ err missing
  unfolding parse_block
  parse_block-missing r h =
      let p : PayloadRow = record { height = h; size = none; bytes = none } in
      rw (laws.block_row-size r p, laws.block_row-bytes r p)

  -- The row of the header of a block, beside its payload.
  parse_block-row :
      (b : BlockQueryData N) (h : ℤ) (j : C.Json) (bytes : List ℕ)
      → C.header_to_json b.header ≡ ok j
      → C.from_bytes bytes b.header ≡ b.payload
      → b.size < 2 ^ 31
      → parse_block N C K (
          laws.block_row
            (record { height = h; hash = C.block_hash_text b.hash; header_data = j })
            (record { height = h; size = some (as_i32 b.size); bytes = some bytes }))
        ≡ ok b
  unfolding parse_block
  parse_block-row b h j bytes header payload small =
      let r : HeaderRow C.Json C.Text = record {
        height = h;
        hash = C.block_hash_text b.hash;
        header_data = j;
      } in
      let p : PayloadRow = record { height = h; size = some (as_i32 b.size); bytes = some bytes } in
      rw (
        laws.block_row-size r p,
        laws.block_row-bytes r p,
        laws.block_row-data r p,
        coded.header_round b.header j header,
        laws.block_row-hash r p,
        coded.hash_round b.hash,
        payload,
        as_usize-as_i32 b.size small,
      )

  -- The block of a leaf, as `BlockQueryData::new` builds it.
  abbrev pub block_of : LeafQueryData N → N.Payload → BlockQueryData N
  block_of l payload = record {
    header = N.block_header l.leaf;
    payload = payload;
    hash = leaf_block_hash N l;
    size = payload_size N payload;
  }

  -- After a leaf has been inserted with success, and the queries succeed, the block of its height
  -- is missing; after an insert with success of the block that is made of the leaf and a payload
  -- of fewer than 2^31 bytes that can be decoded, the block is found by its height.
  pub get_block-insert_block :
      (ds : SqlDataSource N C K) (l : LeafQueryData N) (payload : N.Payload)
      (found found' : Option K.Row)
      → IsSynced N C K laws ds
      → payload_size N payload < 2 ^ 31
      → ((bytes : List ℕ)
          → N.encode payload ≡ some bytes
          → C.from_bytes bytes (N.block_header l.leaf) ≡ payload)
      → IsOk (insert_leaf N C K ds l).1
      → IsOk (insert_block N C K (insert_leaf N C K ds l).0 (block_of l payload)).1
      → K.query_opt
          (insert_leaf N C K ds l).0.client
          (block_query "h.height = $1")
          (bigint (as_i64 (leaf_height N l)) ∷ [])
        ≡ ok found
      → K.query_opt
          (insert_block N C K (insert_leaf N C K ds l).0 (block_of l payload)).0.client
          (block_query "h.height = $1")
          (bigint (as_i64 (leaf_height N l)) ∷ [])
        ≡ ok found'
      → (get_block N C K (insert_leaf N C K ds l).0 (number (leaf_height N l)) ≡ err missing)
        × (get_block N C K
              (insert_block N C K (insert_leaf N C K ds l).0 (block_of l payload)).0
              (number (leaf_height N l))
            ≡ ok (block_of l payload))
  unfolding find_block
  get_block-insert_block ds l payload found found' sync small decoded good good' before after =
      let n = leaf_height N l in
      let h = as_i64 n in
      let b = block_of l payload in
      let t = (session_of N C K laws ds).tables in
      let ds1 = (insert_leaf N C K ds l).0 in
      let (j, at, _, new, new', _, busy, _, _) = insert_leaf_lem N C K laws ds l sync good in
      let (bytes, rows, _, encoded, at', _, _, _, _) =
        insert_block_lem N C K laws ds1 b (ap (λ s. s.in_transaction) at ∙ sym busy) good' in
      let r : HeaderRow C.Json C.Text = record {
        height = h;
        hash = C.block_hash_text b.hash;
        header_data = j.header_json;
      } in
      let p : PayloadRow = record { height = h; size = none; bytes = none } in
      let answer : Option (HeaderRow C.Json C.Text × PayloadRow) → QueryResult (BlockQueryData N) =
        λ o.
          context not_found_error
            (map_option (λ (q : HeaderRow C.Json C.Text × PayloadRow). laws.block_row q.0 q.1) o)
          >>= parse_block N C K in
      let header : find_header h (t.header ++ (r ∷ [])) ≡ some r =
        find_new (λ q. eq_int q.height h) t.header r new (eq_int_refl h) in
      let unset : find_payload h (t.payload ++ (p ∷ [])) ≡ some p =
        find_new (λ q. eq_int q.height h) t.payload p new' (eq_int_refl h) in
      let set_ = find_payload-set_payload bytes (as_i32 b.size) h (t.payload ++ (p ∷ [])) in
      (
        get_block_lem ds1 n found before
            ∙ ap (λ s. answer (find_block h s.tables)) at
            ∙ ap answer (find_block_lem h (with_leaf N C t l j) r p header unset)
            ∙ parse_block-missing r h,
        get_block_lem (insert_block N C K ds1 b).0 n found' after
            ∙ ap (λ s. answer (find_block h s.tables)) at'
            ∙ ap
                (λ (s : Session C.Json C.Text). answer (
                  find_block h (record s.tables {
                    payload = set_payload bytes (as_i32 b.size) h s.tables.payload;
                    transaction = s.tables.transaction ++ rows;
                  })))
                at
            ∙ ap answer (
                find_block_lem h
                  (record (with_leaf N C t l j) {
                    payload = set_payload bytes (as_i32 b.size) h (t.payload ++ (p ∷ []));
                    transaction = t.transaction ++ rows;
                  })
                  r (record { height = h; size = some (as_i32 b.size); bytes = some bytes }) header
                  (set_
                    ∙ ap
                        (map_option (λ (q : PayloadRow). record q {
                          size = some (as_i32 b.size);
                          bytes = some bytes;
                        }))
                        unset))
            ∙ (parse_block-row b h j.header_json bytes j.header_ok (decoded bytes encoded) small),
      )
