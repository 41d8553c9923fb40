-- ===== src/Sql/Genesis.antt =====
-- The genesis block in a data source of src/data_source/sql.rs that has just been opened.
use hotshot_query_service.Prelude.{[], ◌∷◌, ◌++◌, ok, ◌≡◌, ap, ◌∙◌, arith}
use hotshot_query_service.NodeTypes.{NodeTypes}
use hotshot_query_service.AppendLog.{IsOk}
use hotshot_query_service.Availability.QueryData.{genesis_leaf, genesis_block}
use hotshot_query_service.Sql.Client.{Client, Encodings, EncodingLaws}
use hotshot_query_service.Sql.Tables.{Tables}
use hotshot_query_service.Sql.Postgres.{PostgresLaws}
use hotshot_query_service.Sql.Ends.{quiet}
use hotshot_query_service.Sql.Store.{
  started, leaf_stored, block_stored, was_committed, leaves_of, stored_leaf, stored_block,
  version_committed, replay, happen,
}
use hotshot_query_service.Sql.Sound.{view}
use hotshot_query_service.Sql.Reached.{Reaches-replay}
use hotshot_query_service.Sql.Connect.{open_source, insert_genesis}
use hotshot_query_service.Sql.Queries.{source_height}
use hotshot_query_service.Sql.Defs.{SqlDataSource, insert_leaf, insert_block, commit}

module _ (N : NodeTypes) (C : Encodings N) (coded : EncodingLaws C) (K : Client C.Json C.Text)
    (laws : PostgresLaws K) where
  insert_genesis_fields :
      (ds : SqlDataSource N C K)
      → source_height N C K ds ≡ ok 0
      → IsOk (insert_genesis N C K ds).1
      → IsOk (insert_leaf N C K ds (genesis_leaf N)).1
        × IsOk (insert_block N C K (insert_leaf N C K ds (genesis_leaf N)).0 (genesis_block N)).1
        × IsOk
            (commit N C K
              (insert_block N C K (insert_leaf N C K ds (genesis_leaf N)).0 (genesis_block N)).0).1
        × ((insert_genesis N C K ds).0
            ≡ (commit N C K
                (insert_block N C K
                  (insert_leaf N C K ds (genesis_leaf N)).0
                  (genesis_block N)).0).0)
  unfolding insert_genesis
  insert_genesis_fields ds e good = ground (arith, e)

  -- Where the block height of a data source that was opened on a quiet database is 0 and the
  -- genesis block is inserted with success, the durable and the visible leaves are those of the
  -- database and then the genesis leaf.
  pub insert_genesis-stored :
      (db : K.Db) (t : Tables C.Json C.Text)
      → laws.session db ≡ quiet N C K laws t
      → source_height N C K (open_source N C K db) ≡ ok 0
      → IsOk (insert_genesis N C K (open_source N C K db)).1
      → view N C coded K laws (insert_genesis N C K (open_source N C K db)).0 ≡ record {
        committed = leaves_of N C t ++ (ok (genesis_leaf N) ∷ []);
        current = leaves_of N C t ++ (ok (genesis_leaf N) ∷ []);
      }
  unfolding replay happen
  insert_genesis-stored db t at empty good =
      let ds = open_source N C K db in
      let (stored, stored', done, e) = insert_genesis_fields ds empty good in
      ap (view N C coded K laws) e
      ∙ Reaches-replay N C coded K laws db t
          (commit N C K
            (insert_block N C K (insert_leaf N C K ds (genesis_leaf N)).0 (genesis_block N)).0).0
          (version_committed ∷ stored_block (genesis_block N) ∷ stored_leaf (genesis_leaf N) ∷ [])
          at
          (was_committed
            (block_stored (leaf_stored started (genesis_leaf N) stored) (genesis_block N) stored')
            done)
