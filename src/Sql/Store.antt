-- ===== src/Sql/Store.antt =====
-- A versioned store, as `VersionedDataSource` of src/data_source.rs promises it, and the states that
-- `SqlDataSource` of src/data_source/sql.rs reaches by calls each of which is followed by `revert` if it
-- fails.
use hotshot_query_service.Prelude.{List, [], ◌∷◌, ◌++◌, map, Result, ok, ◌>>=◌}
use Prim.Native.String.{String}
use hotshot_query_service.NodeTypes.{NodeTypes}
use hotshot_query_service.AppendLog.{IsOk}
use hotshot_query_service.Availability.QueryData.{LeafQueryData, BlockQueryData}
use hotshot_query_service.Sql.Client.{Client, Encodings}
use hotshot_query_service.Sql.Tables.{Tables, LeafRow}
use hotshot_query_service.Sql.Defs.{SqlDataSource, insert_leaf, insert_block, commit, revert}

-- What is committed, and what a reader sees.
pub record Versions (T : Type 0) : Type 0 where
  pub committed : List T
  pub current : List T

-- The calls. A refused one has failed and was followed by a revert.
pub data Event (L B : Type 0) : Type 0 where
  stored_leaf : L → Event L B
  stored_block : B → Event L B
  version_committed : Event L B
  version_reverted : Event L B
  refused_leaf : L → Event L B
  refused_block : B → Event L B

module _ {T L B : Type 0} (value : L → T) where
  unfoldable pub happen : Event L B → Versions T → Versions T
  happen (stored_leaf l) v = record v { current = v.current ++ (value l ∷ []) }
  happen (stored_block b) v = v
  happen version_committed v = record v { committed = v.current }
  happen version_reverted v = record v { current = v.committed }
  happen (refused_leaf l) v = record v { current = v.committed }
  happen (refused_block b) v = record v { current = v.committed }

  -- The latest event is the first.
  unfoldable pub replay : List (Event L B) → Versions T → Versions T
  unfolding happen
  replay [] v = v
  replay (e ∷ es) v = happen e (replay es v)

module _ (N : NodeTypes) (C : Encodings N) where
  -- The leaf of a row.
  abbrev pub read_row : LeafRow C.Json C.Text → Result String (LeafQueryData N)
  read_row r = do
    leaf ← C.leaf_from_json r.leaf
    qc ← C.qc_from_json r.qc
    ok (record { leaf = leaf; qc = qc })

  abbrev pub leaves_of : Tables C.Json C.Text → List (Result String (LeafQueryData N))
  leaves_of tables = map read_row tables.leaf

  -- Leaves as they are read back.
  abbrev pub read_back : List (LeafQueryData N) → List (Result String (LeafQueryData N))
  read_back ls = map ok ls

  module _ (K : Client C.Json C.Text) where
    pub data Reaches (start : SqlDataSource N C K)
        : List (Event (LeafQueryData N) (BlockQueryData N)) → SqlDataSource N C K → Type 0 where
      started : Reaches start [] start
      leaf_stored :
          {es : List (Event (LeafQueryData N) (BlockQueryData N))} {ds : SqlDataSource N C K}
          → Reaches start es ds
          → (l : LeafQueryData N) → IsOk (insert_leaf N C K ds l).1
          → Reaches start (stored_leaf l ∷ es) (insert_leaf N C K ds l).0
      block_stored :
          {es : List (Event (LeafQueryData N) (BlockQueryData N))} {ds : SqlDataSource N C K}
          → Reaches start es ds
          → (b : BlockQueryData N) → IsOk (insert_block N C K ds b).1
          → Reaches start (stored_block b ∷ es) (insert_block N C K ds b).0
      was_committed :
          {es : List (Event (LeafQueryData N) (BlockQueryData N))} {ds : SqlDataSource N C K}
          → Reaches start es ds
          → IsOk (commit N C K ds).1
          → Reaches start (version_committed ∷ es) (commit N C K ds).0
      was_reverted :
          {es : List (Event (LeafQueryData N) (BlockQueryData N))} {ds : SqlDataSource N C K}
          → Reaches start es ds
          → IsOk (revert N C K ds).1
          → Reaches start (version_reverted ∷ es) (revert N C K ds).0
      leaf_refused :
          {es : List (Event (LeafQueryData N) (BlockQueryData N))} {ds : SqlDataSource N C K}
          → Reaches start es ds
          → (l : LeafQueryData N) → IsOk (revert N C K (insert_leaf N C K ds l).0).1
          → Reaches start (refused_leaf l ∷ es) (revert N C K (insert_leaf N C K ds l).0).0
      block_refused :
          {es : List (Event (LeafQueryData N) (BlockQueryData N))} {ds : SqlDataSource N C K}
          → Reaches start es ds
          → (b : BlockQueryData N) → IsOk (revert N C K (insert_block N C K ds b).0).1
          → Reaches start (refused_block b ∷ es) (revert N C K (insert_block N C K ds b).0).0
