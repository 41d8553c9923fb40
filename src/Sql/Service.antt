-- ===== src/Sql/Service.antt =====
-- A service of src/lib.rs over the data source of src/data_source/sql.rs.
use hotshot_query_service.Prelude.{
  List, [], ◌∷◌, ◌++◌, map, Result, ok, err, Fault, error, panic, map_fault, ◌⊎◌, inl, inr, ◌≡◌,
  refl, sym, ap, ap₂, ◌∙◌, append-nil, append_assoc, map_id,
}
use Prim.Native.String.{String}
use hotshot_query_service.Errors.{QueryError}
use hotshot_query_service.NodeTypes.{NodeTypes}
use hotshot_query_service.AppendLog.{IsOk}
use hotshot_query_service.Channel.{BufferedChannel, push, init}
use hotshot_query_service.Channel.Delivery.{flush_lem}
use hotshot_query_service.Availability.QueryData.{LeafQueryData}
use hotshot_query_service.Update.{Event}
use hotshot_query_service.Update.Decided.{Appends, AllFit, all_decided, serve-adds}
use hotshot_query_service.Update.Service.{VersionedSource, serve}
use hotshot_query_service.Sql.Client.{Client, Encodings, EncodingLaws}
use hotshot_query_service.Sql.Tables.{Tables}
use hotshot_query_service.Sql.Postgres.{PostgresLaws}
use hotshot_query_service.Sql.Inserts.{insert_leaf_lem}
use hotshot_query_service.Sql.Blocks.{insert_block_lem}
use hotshot_query_service.Sql.Connect.{open_source}
use hotshot_query_service.Sql.Defs.{SqlDataSource, insert_leaf, insert_block, commit, revert}
use hotshot_query_service.Sql.Ends.{quiet, commit_lem}
use hotshot_query_service.Sql.Store.{leaves_of, read_back}
use hotshot_query_service.Sql.Sound.{
  view, IsSound, insert_leaf-IsSound, insert_block-IsSound, commit-IsSound,
}
use hotshot_query_service.Sql.Reached.{opened-IsSound}

abbrev pub map_fault_error : {E F : Type 0} → (E → F) → Fault E → Fault F
map_fault_error f (error e) = error (f e)
map_fault_error f panic = panic

map_fault-then :
    {D E F : Type 0} (P : D → Type 0) (f : E → F) (s : D × Result E (Unit {0}))
    → (IsOk s.1 → P s.0)
    → IsOk (map_fault f s).1
    → P (map_fault f s).0
map_fault-then P f (d, ok u) after good = after tt
map_fault-then P f (d, err e) after good = absurd good

module _ (N : NodeTypes) (C : Encodings N) (K : Client C.Json C.Text) where
  -- An insert fails with a `QueryError`, a commit with the text of the database's error.
  abbrev pub sql_service : VersionedSource N (SqlDataSource N C K) (QueryError ⊎ String)
  sql_service = record {
    availability = record {
      insert_leaf = λ ds l. map_fault (λ e. error (inl e)) (insert_leaf N C K ds l);
      insert_block = λ ds b. map_fault (map_fault_error (λ e. inl e)) (insert_block N C K ds b);
    };
    commit = λ ds. map_fault (λ e. inr e) (commit N C K ds);
    revert = λ ds. map_fault (map_fault_error (λ e. inr e)) (revert N C K ds);
  }

  -- What has been broadcast or waits to be.
  abbrev announced : SqlDataSource N C K → List (LeafQueryData N)
  announced ds = ds.leaf_stream.sent ++ ds.leaf_stream.pending

  module _ (coded : EncodingLaws C) (laws : PostgresLaws K) where
    sql-Appends :
        (base : List (Result String (LeafQueryData N)))
        → Appends N sql_service
            (λ l. l)
            (λ ls l. Unit)
            (IsSound N C coded K laws base)
            (λ ds. ds.leaf_stream.pending ≡ [])
            announced
    unfolding push
    sql-Appends base = record {
      leaf_added = λ ds l s fits good.
          map_fault-then
            (λ d. IsSound N C coded K laws base d × (announced d ≡ announced ds ++ (l ∷ [])))
            (λ e. error (inl e)) (insert_leaf N C K ds l)
            (λ fine.
              let (_, _, _, _, _, _, _, pushed, _) =
                insert_leaf_lem N C K laws ds l s.synced fine in
              (
                (insert_leaf-IsSound N C coded K laws base ds l fine s).0,
                ap (λ c. c.sent ++ c.pending) pushed
                    ∙ sym (append_assoc ds.leaf_stream.sent ds.leaf_stream.pending (l ∷ [])),
              ))
            good;
      block_added = λ ds b s good.
          map_fault-then (λ d. IsSound N C coded K laws base d × (announced d ≡ announced ds))
            (map_fault_error (λ e. inl e)) (insert_block N C K ds b)
            (λ fine.
              let (_, _, _, _, _, _, _, kept, _) = insert_block_lem N C K laws ds b s.synced fine in
              (
                (insert_block-IsSound N C coded K laws base ds b fine s).0,
                ap (λ c. c.sent ++ c.pending) kept,
              ))
            good;
      committed = λ ds s good.
          map_fault-then
            (λ d.
              IsSound N C coded K laws base d
              × (d.leaf_stream.pending ≡ [])
              × (announced d ≡ announced ds))
            (λ e. inr e) (commit N C K ds)
            (λ fine.
              let (_, _, flushed, _) = commit_lem N C K laws ds s.synced s.usable s.idle fine in
              (
                (commit-IsSound N C coded K laws base ds fine s).0,
                ap (λ c. c.pending) (flushed ∙ flush_lem ds.leaf_stream),
                ap (λ c. c.sent ++ c.pending) (flushed ∙ flush_lem ds.leaf_stream)
                    ∙ append-nil (announced ds),
              ))
            good;
    }

    all_fit : (xs ls : List (LeafQueryData N)) → AllFit N (λ l. l) (λ ms l. Unit) xs ls
    all_fit xs [] = tt
    all_fit xs (l ∷ ls) = (tt, all_fit (xs ++ (l ∷ [])) ls)

    -- A service that has handled all its events without a failure has made durable, and broadcast, the
    -- leaves that they decide, behind those of the database.
    pub serve-durable :
        (db : K.Db) (t : Tables C.Json C.Text) (events : List (Event N))
        → laws.session db ≡ quiet N C K laws t
        → IsOk (serve N sql_service events (open_source N C K db)).1
        → ((view N C coded K laws (serve N sql_service events (open_source N C K db)).0).committed
            ≡ leaves_of N C t ++ map ok (all_decided N events))
          × ((view N C coded K laws (serve N sql_service events (open_source N C K db)).0).current
              ≡ leaves_of N C t ++ map ok (all_decided N events))
          × ((serve N sql_service events (open_source N C K db)).0.leaf_stream
              ≡ record { pending = []; sent = all_decided N events })
    unfolding open_source init
    serve-durable db t events at good =
        let ds = (serve N sql_service events (open_source N C K db)).0 in
        let start = open_source N C K db in
        let (s, none_left, added) =
          serve-adds N sql_service (λ l. l) (λ ms l. Unit)
            (IsSound N C coded K laws (leaves_of N C t)) (λ d. d.leaf_stream.pending ≡ []) announced
            (sql-Appends (leaves_of N C t)) events start (opened-IsSound N C coded K laws db t at)
            refl (all_fit (announced start) (all_decided N events)) good in
        let sent : ds.leaf_stream.sent ≡ all_decided N events =
          sym (append-nil ds.leaf_stream.sent)
          ∙ ap (λ ls. ds.leaf_stream.sent ++ ls) (sym none_left)
          ∙ added
          ∙ map_id (all_decided N events) in
        let durable : (view N C coded K laws ds).committed
            ≡ leaves_of N C t ++ map ok (all_decided N events) =
          s.durable_leaves ∙ ap (λ ls. leaves_of N C t ++ read_back N C ls) sent in
        (
          durable,
          s.visible_leaves
              ∙ ap (λ ls. (view N C coded K laws ds).committed ++ read_back N C ls) none_left
              ∙ append-nil (view N C coded K laws ds).committed
              ∙ durable,
          ap₂
              (λ (p q : List (LeafQueryData N)).
                let c : BufferedChannel (LeafQueryData N) = record { pending = p; sent = q } in c)
              none_left sent,
        )
