-- ===== src/Sql/Sound.antt =====
-- What the calls of `SqlDataSource` of src/data_source/sql.rs do to the leaves that are durable, those that
-- are visible and those that were broadcast.
use hotshot_query_service.Prelude.{
  List, [], ◌∷◌, ◌++◌, map, false, Result, ok, ◌≡◌, sym, ap, ap₂, ◌∙◌, arith, append-nil,
  append_assoc, map-append,
}
use Prim.Native.String.{String}
use hotshot_query_service.NodeTypes.{NodeTypes}
use hotshot_query_service.AppendLog.{IsOk}
use hotshot_query_service.Channel.{push, clear}
use hotshot_query_service.Channel.Delivery.{flush_lem}
use hotshot_query_service.Availability.QueryData.{LeafQueryData, BlockQueryData}
use hotshot_query_service.Sql.Client.{Client, Encodings, EncodingLaws}
use hotshot_query_service.Sql.Tables.{Session}
use hotshot_query_service.Sql.Postgres.{PostgresLaws}
use hotshot_query_service.Sql.Sessions.{session_of, IsSynced}
use hotshot_query_service.Sql.Inserts.{insert_leaf_lem}
use hotshot_query_service.Sql.LeafRows.{row_of, LeafJson}
use hotshot_query_service.Sql.Blocks.{insert_block_lem}
use hotshot_query_service.Sql.Defs.{SqlDataSource, insert_leaf, insert_block, commit, revert}
use hotshot_query_service.Sql.Ends.{quiet, commit_lem, revert_lem}
use hotshot_query_service.Sql.Store.{Versions, leaves_of, read_back, read_row}

module _ (N : NodeTypes) (C : Encodings N) (coded : EncodingLaws C) (K : Client C.Json C.Text)
    (laws : PostgresLaws K) where
  -- What is durable and what is visible, as leaves.
  abbrev pub view : SqlDataSource N C K → Versions (Result String (LeafQueryData N))
  view ds = record {
    committed = leaves_of N C (session_of N C K laws ds).durable;
    current = leaves_of N C (session_of N C K laws ds).tables;
  }

  abbrev pub see : Session C.Json C.Text → Versions (Result String (LeafQueryData N))
  see t = record { committed = leaves_of N C t.durable; current = leaves_of N C t.tables }

  -- The session has not failed, the durable leaves are those of `base` and those that were broadcast,
  -- and the visible ones are these and those that wait to be broadcast.
  pub record IsSound (base : List (Result String (LeafQueryData N))) (ds : SqlDataSource N C K)
      : Type 0 where
    pub synced : IsSynced N C K laws ds
    pub usable : (session_of N C K laws ds).failed ≡ false
    pub idle :
        ds.tx_in_progress ≡ false
        → ((session_of N C K laws ds).durable ≡ (session_of N C K laws ds).tables)
    pub durable_leaves : (view ds).committed ≡ base ++ read_back N C ds.leaf_stream.sent
    pub visible_leaves :
        (view ds).current ≡ (view ds).committed ++ read_back N C ds.leaf_stream.pending

  read_row_of : (l : LeafQueryData N) (j : LeafJson N C l) → read_row N C (row_of N C l j) ≡ ok l
  read_row_of l j =
      rw (coded.leaf_round l.leaf j.leaf_json j.leaf_ok, coded.qc_round l.qc j.qc_json j.qc_ok)

  pub insert_leaf-IsSound :
      (base : List (Result String (LeafQueryData N))) (ds : SqlDataSource N C K)
      (l : LeafQueryData N)
      → IsOk (insert_leaf N C K ds l).1
      → IsSound base ds
      → IsSound base (insert_leaf N C K ds l).0
        × (view (insert_leaf N C K ds l).0
            ≡ record (view ds) { current = (view ds).current ++ (ok l ∷ []) })
  unfolding push
  insert_leaf-IsSound base ds l good s =
      let (j, at, sound, _, _, _, busy, pushed, _) =
        insert_leaf_lem N C K laws ds l s.synced good in
      let ends : map (read_row N C)
            ((session_of N C K laws ds).tables.leaf ++ (row_of N C l j ∷ []))
          ≡ (view ds).current ++ (ok l ∷ []) =
        map-append (read_row N C) (session_of N C K laws ds).tables.leaf (row_of N C l j ∷ [])
        ∙ ap (λ r. (view ds).current ++ (r ∷ [])) (read_row_of l j) in
      let now : view (insert_leaf N C K ds l).0
          ≡ record (view ds) { current = (view ds).current ++ (ok l ∷ []) } =
        ap see at
        ∙ ap (λ (xs : List (Result String (LeafQueryData N))). record (view ds) { current = xs })
            ends in
      (
        record {
          synced = ap (λ t. t.in_transaction) at ∙ sym busy;
          usable = ap (λ t. t.failed) at ∙ sound;
          idle = λ e. absurd (ground (arith, e, busy));
          durable_leaves =
              ap (λ v. v.committed) now
              ∙ s.durable_leaves
              ∙ ap (λ c. base ++ read_back N C c.sent) (sym pushed);
          visible_leaves =
              ap (λ v. v.current) now
              ∙ ap (λ xs. xs ++ (ok l ∷ [])) s.visible_leaves
              ∙ append_assoc (view ds).committed (read_back N C ds.leaf_stream.pending) (ok l ∷ [])
              ∙ ap (λ xs. (view ds).committed ++ xs)
                  (sym (map-append ok ds.leaf_stream.pending (l ∷ [])))
              ∙ ap (λ c. (view ds).committed ++ read_back N C c.pending) (sym pushed)
              ∙ ap (λ xs. xs ++ read_back N C (insert_leaf N C K ds l).0.leaf_stream.pending)
                  (sym (ap (λ v. v.committed) now));
        },
        now,
      )

  pub insert_block-IsSound :
      (base : List (Result String (LeafQueryData N))) (ds : SqlDataSource N C K)
      (b : BlockQueryData N)
      → IsOk (insert_block N C K ds b).1
      → IsSound base ds
      → IsSound base (insert_block N C K ds b).0 × (view (insert_block N C K ds b).0 ≡ view ds)
  insert_block-IsSound base ds b good s =
      let (_, _, _, _, at, sound, busy, kept, _) = insert_block_lem N C K laws ds b s.synced good in
      let now : view (insert_block N C K ds b).0 ≡ view ds = ap see at in
      (
        record {
          synced = ap (λ t. t.in_transaction) at ∙ sym busy;
          usable = ap (λ t. t.failed) at ∙ sound;
          idle = λ e. absurd (ground (arith, e, busy));
          durable_leaves =
              ap (λ v. v.committed) now
              ∙ s.durable_leaves
              ∙ ap (λ c. base ++ read_back N C c.sent) (sym kept);
          visible_leaves =
              ap (λ v. v.current) now
              ∙ s.visible_leaves
              ∙ ap₂ (λ c xs. xs ++ read_back N C c.pending) (sym kept)
                  (sym (ap (λ v. v.committed) now));
        },
        now,
      )

  pub commit-IsSound :
      (base : List (Result String (LeafQueryData N))) (ds : SqlDataSource N C K)
      → IsOk (commit N C K ds).1
      → IsSound base ds
      → IsSound base (commit N C K ds).0
        × (view (commit N C K ds).0 ≡ record (view ds) { committed = (view ds).current })
  commit-IsSound base ds good s =
      let (at, done, flushed, _) = commit_lem N C K laws ds s.synced s.usable s.idle good in
      let now : view (commit N C K ds).0 ≡ record (view ds) { committed = (view ds).current } =
        ap see at in
      let c = ds.leaf_stream in
      let sends = flushed ∙ flush_lem c in
      (
        record {
          synced = ap (λ t. t.in_transaction) at ∙ sym done;
          usable = ap (λ t. t.failed) at;
          idle = λ e. ap (λ t. t.durable) at ∙ sym (ap (λ t. t.tables) at);
          durable_leaves =
              ap (λ v. v.committed) now
              ∙ s.visible_leaves
              ∙ ap (λ xs. xs ++ read_back N C c.pending) s.durable_leaves
              ∙ append_assoc base (read_back N C c.sent) (read_back N C c.pending)
              ∙ ap (λ xs. base ++ xs) (sym (map-append ok c.sent c.pending))
              ∙ ap (λ d. base ++ read_back N C d.sent) (sym sends);
          visible_leaves =
              ap (λ v. v.current) now
              ∙ sym (ap (λ v. v.committed) now)
              ∙ sym (append-nil (view (commit N C K ds).0).committed)
              ∙ ap (λ d. (view (commit N C K ds).0).committed ++ read_back N C d.pending)
                  (sym sends);
        },
        now,
      )

  -- A data source that reverts, whatever has failed before.
  pub revert-IsSound :
      (base : List (Result String (LeafQueryData N))) (ds mid : SqlDataSource N C K)
      → (session_of N C K laws mid).durable ≡ (session_of N C K laws ds).durable
      → mid.leaf_stream.sent ≡ ds.leaf_stream.sent
      → (mid.tx_in_progress ≡ false
          → (session_of N C K laws mid ≡ session_of N C K laws ds) × (ds.tx_in_progress ≡ false))
      → IsOk (revert N C K mid).1
      → IsSound base ds
      → IsSound base (revert N C K mid).0
        × (view (revert N C K mid).0 ≡ record (view ds) { current = (view ds).committed })
  unfolding clear
  revert-IsSound base ds mid same sent rest good s =
      let quiet_before : ds.tx_in_progress ≡ false
          → session_of N C K laws ds ≡ quiet N C K laws (session_of N C K laws ds).durable =
        λ e.
          ap (λ b. record (session_of N C K laws ds) { in_transaction = b }) (s.synced ∙ e)
          ∙ ap (λ b. record (session_of N C K laws ds) { in_transaction = false; failed = b })
              s.usable
          ∙ ap
              (λ t. record {
                durable = (session_of N C K laws ds).durable;
                tables = t;
                in_transaction = false;
                failed = false;
              })
              (sym (s.idle e)) in
      let idle_ : mid.tx_in_progress ≡ false
          → session_of N C K laws mid ≡ quiet N C K laws (session_of N C K laws mid).durable =
        λ e.
          let (as_before, unopened) = rest e in
          as_before ∙ quiet_before unopened ∙ ap (quiet N C K laws) (sym same) in
      let (at, done, cleared, _) = revert_lem N C K laws mid idle_ good in
      let at' = at ∙ ap (quiet N C K laws) same in
      let now : view (revert N C K mid).0 ≡ record (view ds) { current = (view ds).committed } =
        ap see at' in
      (
        record {
          synced = ap (λ t. t.in_transaction) at' ∙ sym done;
          usable = ap (λ t. t.failed) at';
          idle = λ e. ap (λ t. t.durable) at' ∙ sym (ap (λ t. t.tables) at');
          durable_leaves =
              ap (λ v. v.committed) now
              ∙ s.durable_leaves
              ∙ ap (λ xs. base ++ read_back N C xs) (sym sent)
              ∙ ap (λ d. base ++ read_back N C d.sent) (sym cleared);
          visible_leaves =
              ap (λ v. v.current) now
              ∙ sym (ap (λ v. v.committed) now)
              ∙ sym (append-nil (view (revert N C K mid).0).committed)
              ∙ ap (λ d. (view (revert N C K mid).0).committed ++ read_back N C d.pending)
                  (sym cleared);
        },
        now,
      )
