-- ===== src/Update/Service.antt =====
-- The loop of `run_standalone_service` in src/lib.rs: each event updates the data source, and the
-- update is committed before the next event is taken. The event stream is the list of its events.
use hotshot_query_service.Prelude.{
  List, [], ◌∷◌, ◌++◌, Result, ok, err, Fault, error, and_then, map_fault, ◌≡◌, refl, sym, ap, ◌∙◌,
  fun_ext, subst, arith,
}
use hotshot_query_service.NodeTypes.{NodeTypes}
use hotshot_query_service.AppendLog.{IsOk, AppendLog}
use hotshot_query_service.LedgerLog.Defs.{commit_version, LedgerLog}
use hotshot_query_service.Update.{UpdateAvailabilityData, Event, update}
use hotshot_query_service.FileSystem.Defs.{
  Storage, FileSystemDataSource, insert_leaf, insert_block, commit, revert,
}
use hotshot_query_service.FileSystem.Stored

-- `UpdateDataSource` with `VersionedDataSource`
pub record VersionedSource (N : NodeTypes) (D E : Type 0) : Type 0 where
  pub availability : UpdateAvailabilityData N D E
  pub commit : D → D × Result E (Unit {0})
  pub revert : D → D × Result (Fault E) (Unit {0})

module _ {D F : Type 0} where
  and_then_assoc :
      (s : D × Result F (Unit {0})) (f g : D → D × Result F (Unit {0}))
      → and_then (and_then s f) g ≡ and_then s (λ d. and_then (f d) g)
  and_then_assoc (d, ok u) f g = refl
  and_then_assoc (d, err e) f g = refl

  and_then-IsOk :
      (s : D × Result F (Unit {0})) (f : D → D × Result F (Unit {0}))
      → IsOk (and_then s f).1
      → IsOk s.1 × IsOk (f s.0).1 × (and_then s f ≡ f s.0)
  and_then-IsOk (d, ok u) f good = (tt, good, refl)
  and_then-IsOk (d, err e) f good = absurd good

module _ (N : NodeTypes) {D E : Type 0} (source : VersionedSource N D E) where
  unfoldable pub handle_event : D → Event N → D × Result (Fault E) (Unit {0})
  unfolding update
  handle_event d event =
      and_then (update N source.availability d event) λ d'. map_fault error (source.commit d')

  unfoldable pub serve : List (Event N) → D → D × Result (Fault E) (Unit {0})
  unfolding handle_event
  serve [] d = (d, ok tt)
  serve (event ∷ events) d = and_then (handle_event d event) (serve events)

  committed_fault :
      (Committed : D → Type 0) (s : D × Result E (Unit {0}))
      → (IsOk s.1 → Committed s.0)
      → IsOk (map_fault (λ (e : E). error e) s).1
      → Committed (map_fault (λ (e : E). error e) s).0
  committed_fault Committed (d, ok u) after good = after tt
  committed_fault Committed (d, err e) after good = absurd good

  -- Events that come later are handled as if the service started from the state that the earlier
  -- ones left, and not at all if one of those failed.
  pub serve-append :
      (xs ys : List (Event N)) (d : D) → serve (xs ++ ys) d ≡ and_then (serve xs d) (serve ys)
  unfolding serve
  serve-append [] ys d = refl
  serve-append (x ∷ xs) ys d =
      ap (and_then (handle_event d x)) (fun_ext λ d'. serve-append xs ys d')
      ∙ sym (and_then_assoc (handle_event d x) (serve xs) (serve ys))

  -- What holds of the state behind a commit that succeeds holds whenever the service has handled
  -- its events.
  pub serve-committed :
      (Committed : D → Type 0)
      → ((d : D) → IsOk (source.commit d).1 → Committed (source.commit d).0)
      → (events : List (Event N)) (d : D) → Committed d
      → IsOk (serve events d).1
      → Committed (serve events d).0
  unfolding serve
  serve-committed Committed after [] d c good = c
  serve-committed Committed after (event ∷ events) d c good =
      let (handled, rest, e) = and_then-IsOk (handle_event d event) (serve events) good in
      let s = update N source.availability d event in
      let (updated, fine, f) = and_then-IsOk s (λ d'. map_fault error (source.commit d')) handled in
      subst (λ (r : D × Result (Fault E) (Unit {0})). Committed r.0) (sym e)
        (serve-committed Committed after events (handle_event d event).0
          (subst (λ (r : D × Result (Fault E) (Unit {0})). Committed r.0) (sym f)
            (committed_fault Committed (source.commit s.0) (after s.0) fine))
          rest)

commit_pending :
    {E T : Type 0} (L : AppendLog E T) (log : LedgerLog L)
    → IsOk (commit_version L log).1
    → (commit_version L log).0.pending_inserts ≡ 0
unfolding commit_version
commit_pending L log good = ground arith

module _ (N : NodeTypes) {E : Type 0} (S : Storage N E) where
  -- The data source on files.
  abbrev pub files : VersionedSource N (FileSystemDataSource N S) E
  files = record {
    availability = record { insert_leaf = insert_leaf N S; insert_block = insert_block N S };
    commit = commit N S;
    revert = revert N S;
  }

  pending_committed :
      (ds : FileSystemDataSource N S)
      → IsOk (commit N S ds).1
      → ((commit N S ds).0.leaf_storage.pending_inserts ≡ 0)
        × ((commit N S ds).0.block_storage.pending_inserts ≡ 0)
  pending_committed ds good =
      let (l, b, el, eb, _, _, _, _) = Stored.commit_fields N S ds good in
      (
        ap (λ log. log.pending_inserts) el ∙ commit_pending S.leaves ds.leaf_storage l,
        ap (λ log. log.pending_inserts) eb ∙ commit_pending S.blocks ds.block_storage b,
      )

  -- A service on files that starts with nothing pending and has handled all its events without a
  -- failure leaves nothing pending in either log.
  pub serve-pending :
      (events : List (Event N)) (ds : FileSystemDataSource N S)
      → ds.leaf_storage.pending_inserts ≡ 0
      → ds.block_storage.pending_inserts ≡ 0
      → IsOk (serve N files events ds).1
      → ((serve N files events ds).0.leaf_storage.pending_inserts ≡ 0)
        × ((serve N files events ds).0.block_storage.pending_inserts ≡ 0)
  serve-pending events ds l b good =
      serve-committed N files
        (λ d. (d.leaf_storage.pending_inserts ≡ 0) × (d.block_storage.pending_inserts ≡ 0))
        (λ d fine. pending_committed d fine) events ds (l, b) good
