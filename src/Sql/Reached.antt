-- ===== src/Sql/Reached.antt =====
-- The states that `SqlDataSource` of src/data_source/sql.rs reaches.
use hotshot_query_service.Prelude.{
  List, ◌++◌, false, Result, ok, ◌≡◌, refl, sym, ap, ◌∙◌, append-nil, append_assoc, map-append,
}
use Prim.Native.String.{String}
use hotshot_query_service.NodeTypes.{NodeTypes}
use hotshot_query_service.Channel.{init}
use hotshot_query_service.Availability.QueryData.{LeafQueryData, BlockQueryData}
use hotshot_query_service.Sql.Client.{Client, Encodings, EncodingLaws}
use hotshot_query_service.Sql.Tables.{Tables}
use hotshot_query_service.Sql.Postgres.{PostgresLaws}
use hotshot_query_service.Sql.Sessions.{session_of}
use hotshot_query_service.Sql.Inserts.{insert_leaf-durable}
use hotshot_query_service.Sql.Blocks.{insert_block-durable}
use hotshot_query_service.Sql.Connect.{open_source}
use hotshot_query_service.Sql.Defs.{SqlDataSource, insert_leaf, insert_block}
use hotshot_query_service.Sql.Ends.{quiet}
use hotshot_query_service.Sql.Store.{
  Event, replay, happen, stored_leaf, version_committed, version_reverted, refused_leaf,
  refused_block, leaves_of, read_back, Reaches, started, leaf_stored, block_stored, was_committed,
  was_reverted, leaf_refused, block_refused,
}
use hotshot_query_service.Sql.Sound.{
  view, see, IsSound, insert_leaf-IsSound, insert_block-IsSound, commit-IsSound, revert-IsSound,
}

module _ (N : NodeTypes) (C : Encodings N) (coded : EncodingLaws C) (K : Client C.Json C.Text)
    (laws : PostgresLaws K) where
  -- Every state that is reached holds what the versioned store holds after the same calls.
  Reaches-IsSound :
      (start ds : SqlDataSource N C K) (es : List (Event (LeafQueryData N) (BlockQueryData N)))
      (base : List (Result String (LeafQueryData N)))
      → IsSound N C coded K laws base start
      → Reaches N C K start es ds
      → IsSound N C coded K laws base ds
        × (view N C coded K laws ds ≡ replay ok es (view N C coded K laws start))
  unfolding replay happen
  Reaches-IsSound start _ _ base s0 started = (s0, refl)
  Reaches-IsSound start _ _ base s0 (leaf_stored {ds = ds} r l good) =
      let (s, v) = Reaches-IsSound start ds _ base s0 r in
      let (s', v') = insert_leaf-IsSound N C coded K laws base ds l good s in
      (s', v' ∙ ap (happen {B = BlockQueryData N} ok (stored_leaf l)) v)
  Reaches-IsSound start _ _ base s0 (block_stored {ds = ds} r b good) =
      let (s, v) = Reaches-IsSound start ds _ base s0 r in
      let (s', v') = insert_block-IsSound N C coded K laws base ds b good s in (s', v' ∙ v)
  Reaches-IsSound start _ _ base s0 (was_committed {ds = ds} r good) =
      let (s, v) = Reaches-IsSound start ds _ base s0 r in
      let (s', v') = commit-IsSound N C coded K laws base ds good s in
      (s', v' ∙ ap (happen {B = BlockQueryData N} ok version_committed) v)
  Reaches-IsSound start _ _ base s0 (was_reverted {ds = ds} r good) =
      let (s, v) = Reaches-IsSound start ds _ base s0 r in
      let (s', v') = revert-IsSound N C coded K laws base ds ds refl refl (λ e. (refl, e)) good s in
      (s', v' ∙ ap (happen {B = BlockQueryData N} ok version_reverted) v)
  Reaches-IsSound start _ _ base s0 (leaf_refused {ds = ds} r l good) =
      let (s, v) = Reaches-IsSound start ds _ base s0 r in
      let (same, _, sent, rest) = insert_leaf-durable N C K laws ds l s.synced in
      let (s', v') =
        revert-IsSound N C coded K laws base ds (insert_leaf N C K ds l).0 same sent rest good s in
      (s', v' ∙ ap (happen {B = BlockQueryData N} ok (refused_leaf l)) v)
  Reaches-IsSound start _ _ base s0 (block_refused {ds = ds} r b good) =
      let (s, v) = Reaches-IsSound start ds _ base s0 r in
      let (same, _, sent, rest) = insert_block-durable N C K laws ds b s.synced in
      let (s', v') =
        revert-IsSound N C coded K laws base ds (insert_block N C K ds b).0 same sent rest good s in
      (s', v' ∙ ap (happen {B = BlockQueryData N} ok (refused_block b)) v)

  pub opened-IsSound :
      (db : K.Db) (t : Tables C.Json C.Text)
      → laws.session db ≡ quiet N C K laws t
      → IsSound N C coded K laws (leaves_of N C t) (open_source N C K db)
  unfolding open_source init
  opened-IsSound db t at = record {
    synced = ap (λ s. s.in_transaction) at;
    usable = ap (λ s. s.failed) at;
    idle = λ e. ap (λ s. s.durable) at ∙ sym (ap (λ s. s.tables) at);
    durable_leaves = ap (λ s. leaves_of N C s.durable) at ∙ sym (append-nil (leaves_of N C t));
    visible_leaves =
        ap (λ s. leaves_of N C s.tables) at
        ∙ sym (ap (λ s. leaves_of N C s.durable) at)
        ∙ sym (append-nil (leaves_of N C (laws.session db).durable));
  }

  -- In every state that successful inserts, commits and reverts, and inserts followed by a
  -- successful revert, bring a data source that was opened on a quiet database to, the durable
  -- leaves are those of the database and then those that have been broadcast, the visible leaves
  -- are these and then the pending ones, and the transaction has not failed.
  pub Reaches-broadcast :
      (db : K.Db) (t : Tables C.Json C.Text) (ds : SqlDataSource N C K)
      (es : List (Event (LeafQueryData N) (BlockQueryData N)))
      → laws.session db ≡ quiet N C K laws t
      → Reaches N C K (open_source N C K db) es ds
      → ((view N C coded K laws ds).committed
          ≡ leaves_of N C t ++ read_back N C ds.leaf_stream.sent)
        × ((view N C coded K laws ds).current
            ≡ leaves_of N C t ++ read_back N C (ds.leaf_stream.sent ++ ds.leaf_stream.pending))
        × ((session_of N C K laws ds).failed ≡ false)
  Reaches-broadcast db t ds es at r =
      let s =
        (Reaches-IsSound (open_source N C K db) ds es (leaves_of N C t) (opened-IsSound db t at)
          r).0 in
      let c = ds.leaf_stream in
      (
        s.durable_leaves,
        s.visible_leaves
            ∙ ap (λ xs. xs ++ read_back N C c.pending) s.durable_leaves
            ∙ append_assoc (leaves_of N C t) (read_back N C c.sent) (read_back N C c.pending)
            ∙ ap (λ xs. leaves_of N C t ++ xs) (sym (map-append ok c.sent c.pending)),
        s.usable,
      )

  -- Whatever successful inserts of leaves and blocks, commits and reverts, and inserts followed by
  -- a successful revert, bring a data source that was opened on a quiet database to, its durable
  -- and its visible leaves are those of a versioned store that starts from the leaves of the
  -- database and goes through the same calls.
  pub Reaches-replay :
      (db : K.Db) (t : Tables C.Json C.Text) (ds : SqlDataSource N C K)
      (es : List (Event (LeafQueryData N) (BlockQueryData N)))
      → laws.session db ≡ quiet N C K laws t
      → Reaches N C K (open_source N C K db) es ds
      → view N C coded K laws ds
        ≡ replay ok es (record { committed = leaves_of N C t; current = leaves_of N C t })
  unfolding open_source
  Reaches-replay db t ds es at r =
      (Reaches-IsSound (open_source N C K db) ds es (leaves_of N C t) (opened-IsSound db t at) r).1
      ∙ ap (λ s. replay ok es (see N C coded K laws s)) at
