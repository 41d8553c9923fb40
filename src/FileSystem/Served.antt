-- ===== src/FileSystem/Served.antt =====
-- A service of src/lib.rs over the data source of src/data_source/fs.rs: which leaves it holds, and what it
-- answers.
use hotshot_query_service.Prelude.{
  ℕ, suc, ◌^◌, ◌<◌, ◌-◌, replicate, Option, none, some, List, [], ◌∷◌, ◌++◌, map, length, ◌≡◌, sym,
  ap, ◌∙◌, subst, arith, length-append,
}
use hotshot_query_service.NodeTypes.{NodeTypes}
use hotshot_query_service.AppendLog.{AppendLogLaws, IsOk}
use hotshot_query_service.LedgerLog.Inv.{objects, len, length-objects}
use hotshot_query_service.LedgerLog.Contents.{IsSound, insert_at_end}
use hotshot_query_service.LedgerLog.Defs.{insert}
use hotshot_query_service.LedgerLog.Reads.{IsSettled, commit_version_lem}
use hotshot_query_service.Availability.QueryData.{LeafQueryData, BlockQueryData, leaf_height}
use hotshot_query_service.Update.{Event}
use hotshot_query_service.Update.Decided.{Appends, AllFit, all_decided, serve-adds}
use hotshot_query_service.Update.Service.{serve, files}
use hotshot_query_service.FileSystem.Defs.{
  Storage, FileSystemDataSource, number, insert_leaf, insert_block, index_leaf,
}
use hotshot_query_service.FileSystem.Queries.{get_leaf, resolve}
use hotshot_query_service.FileSystem.Stored.{answer, read_at_lem, commit_fields, insert_leaf_fields}

module _ (N : NodeTypes) where
  -- The heights of the leaves count up from `n`.
  abbrev pub InOrder : ℕ → List (LeafQueryData N) → Type 0
  InOrder n [] = Unit
  InOrder n (l ∷ ls) = (leaf_height N l ≡ n) × InOrder (suc n) ls

  abbrev Next : List (Option (LeafQueryData N)) → LeafQueryData N → Type 0
  Next xs l = leaf_height N l ≡ length xs

  InOrder-AllFit :
      (xs : List (Option (LeafQueryData N))) (n : ℕ) (ls : List (LeafQueryData N))
      → n ≡ length xs
      → InOrder n ls
      → AllFit N (λ l. some l) Next xs ls
  InOrder-AllFit xs n [] e fit = tt
  InOrder-AllFit xs n (l ∷ ls) e (at, fit) = (
    at ∙ e,
    InOrder-AllFit (xs ++ (some l ∷ [])) (suc n) ls
        (omega (arith, e, length-append xs (some l ∷ []))) fit,
  )

module _ (N : NodeTypes) {E : Type 0} (S : Storage N E) (laws : AppendLogLaws S.leaves) where
  abbrev chain : FileSystemDataSource N S → List (Option (LeafQueryData N))
  chain ds = objects S.leaves laws ds.leaf_storage

  length-chain :
      (ds : FileSystemDataSource N S)
      → IsSound S.leaves laws ds.leaf_storage
      → len S.leaves laws ds.leaf_storage ≡ length (chain ds)
  length-chain ds s = omega (arith, length-objects S.leaves laws ds.leaf_storage s.0, s.0.total)

  insert_block-leaves :
      (ds : FileSystemDataSource N S) (b : BlockQueryData N)
      → (insert_block N S ds b).0.leaf_storage ≡ ds.leaf_storage
  unfolding insert_block
  insert_block-leaves ds b = ground arith

  leaf_stored :
      (ds : FileSystemDataSource N S) (l : LeafQueryData N)
      → IsSound S.leaves laws ds.leaf_storage
      → Next N (chain ds) l
      → IsOk (insert_leaf N S ds l).1
      → IsSound S.leaves laws (insert_leaf N S ds l).0.leaf_storage
        × (chain (insert_leaf N S ds l).0 ≡ chain ds ++ (some l ∷ []))
  unfolding index_leaf
  leaf_stored ds l s next good =
      let (stored_ok, e) = insert_leaf_fields N S ds l good in
      let height = leaf_height N l in
      let log = (insert S.leaves ds.leaf_storage height l).0 in
      let e' : (insert_leaf N S ds l).0.leaf_storage ≡ log = ap (λ d. d.leaf_storage) e in
      let at_end : height ≡ len S.leaves laws ds.leaf_storage = next ∙ sym (length-chain ds s) in
      let (grew, sound) =
        insert_at_end S.leaves laws ds.leaf_storage height l (omega (arith, at_end)) stored_ok s in
      let no_gap : height - len S.leaves laws ds.leaf_storage ≡ 0 = omega (arith, at_end) in
      rw (e') (sound, grew ∙ ap (λ k. chain ds ++ (replicate k none ++ (some l ∷ []))) no_gap)

  file-Appends :
      Appends N
        (files N S)
        (λ l. some l)
        (Next N)
        (λ ds. IsSound S.leaves laws ds.leaf_storage)
        (λ ds. IsSettled S.leaves laws ds.leaf_storage)
        chain
  file-Appends = record {
    leaf_added = leaf_stored;
    block_added = λ ds b s good.
        let e = insert_block-leaves ds b in
        (subst (IsSound S.leaves laws) (sym e) s, ap (objects S.leaves laws) e);
    committed = λ ds s good.
        let c = commit_fields N S ds good in
        let (same, sound, settled) = commit_version_lem S.leaves laws ds.leaf_storage c.0 s in
        rw (c.2) (sound, settled, same);
  }

  -- A service on files that starts from a well-formed chain of leaves with nothing in the cache in
  -- front of the stored ones, and has handled all its events without a failure, holds the old
  -- chain and then the leaves that the events decide, if their heights count up from the end of
  -- the old chain; and a query for a leaf by a height below 2^64 is answered from that chain.
  pub serve-reads :
      (events : List (Event N)) (ds : FileSystemDataSource N S) (n : ℕ)
      → IsSound S.leaves laws ds.leaf_storage
      → IsSettled S.leaves laws ds.leaf_storage
      → InOrder N (len S.leaves laws ds.leaf_storage) (all_decided N events)
      → n < 2 ^ 64
      → IsOk (serve N (files N S) events ds).1
      → (chain (serve N (files N S) events ds).0
          ≡ chain ds ++ map (λ l. some l) (all_decided N events))
        × (get_leaf N S (serve N (files N S) events ds).0 (number n)
            ≡ answer (chain ds ++ map (λ l. some l) (all_decided N events)) n)
  unfolding get_leaf resolve
  serve-reads events ds n s settled heights small good =
      let ds' = (serve N (files N S) events ds).0 in
      let (s', settled', grew) =
        serve-adds N (files N S) (λ l. some l) (Next N) (λ d. IsSound S.leaves laws d.leaf_storage)
          (λ d. IsSettled S.leaves laws d.leaf_storage) chain file-Appends events ds s settled
          (InOrder-AllFit N (chain ds) (len S.leaves laws ds.leaf_storage) (all_decided N events)
            (length-chain ds s) heights)
          good in
      (
        grew,
        read_at_lem S.leaves laws ds'.leaf_storage n s' settled' small
            ∙ ap (λ xs. answer xs n) grew,
      )
