-- ===== src/FileSystem/Reopen.antt =====
-- The indices of src/data_source/fs.rs hold what `open_with_store` rebuilds from storage.
use hotshot_query_service.Prelude.{
  ℕ, ◌-◌, ◌≤◌, ◌<◌, ◌≡◌, refl, sym, ap, subst, ◌∙◌, inl, inr, Option, none, List, [], ◌∷◌, ◌++◌,
  map, ok, Result-cases, arith, append-nil,
}
use hotshot_query_service.NodeTypes.{NodeTypes}
use hotshot_query_service.AppendLog.{AppendLog, AppendLogLaws, IsOk}
use hotshot_query_service.LedgerLog.Iter.{load}
use hotshot_query_service.LedgerLog.Defs.{open_log, LedgerLog, insert, opened}
use hotshot_query_service.LedgerLog.Inv.{objects, len}
use hotshot_query_service.LedgerLog.Contents.{IsSound, insert_at_end}
use hotshot_query_service.LedgerLog.Reads.{IsSettled, open_log-IsSound}
use hotshot_query_service.LedgerLog.Broadcast.{IsSmall}
use hotshot_query_service.Availability.QueryData.{
  LeafQueryData, BlockQueryData, leaf_height, block_height,
}
use hotshot_query_service.FileSystem.Defs.{
  Storage, FileSystemDataSource, empty_source, insert_leaf, index_leaf, insert_block,
  index_transactions,
}
use hotshot_query_service.FileSystem.Open.{index_leaves, index_blocks, rebuild}
use hotshot_query_service.FileSystem.Stored.{insert_leaf_fields}
use hotshot_query_service.FileSystem.Flatten.{somes, somes-extend, flatten_iter-objects}

-- Opening the store of a log in which nothing is pending gives back its objects.
reopened_log :
    {E T : Type 0} (L : AppendLog E T) (laws : AppendLogLaws L) (log : LedgerLog L) (n : ℕ)
    → laws.pending log.store ≡ []
    → 0 < n
    → (objects L laws (opened L log.store n) ≡ objects L laws log)
      × IsSound L laws (opened L log.store n)
      × IsSettled L laws (opened L log.store n)
unfolding open_log
reopened_log L laws log n none_pending pos =
    let (e, s, h) = open_log-IsSound L laws log.store n none_pending pos refl in
    (e ∙ sym (rw none_pending (append-nil (map load (L.iter log.store)))), s, h)

module _ (N : NodeTypes) {E : Type 0} (S : Storage N E) where
  index_leaves-append :
      (ds : FileSystemDataSource N S) (xs : List (LeafQueryData N)) (l : LeafQueryData N)
      → index_leaves N S ds (xs ++ (l ∷ [])) ≡ index_leaf N S (index_leaves N S ds xs) l
  unfolding index_leaves
  index_leaves-append ds [] l = refl
  index_leaves-append ds (x ∷ xs) l = index_leaves-append (index_leaf N S ds x) xs l

  abbrev TxnIndex : Type 0
  TxnIndex = N.TransactionHash → Option (ℕ × N.TransactionIndex)

  index_blocks-append :
      (m m' : TxnIndex) (bs : List (BlockQueryData N)) (b : BlockQueryData N)
      → index_blocks N S m bs ≡ (m', ok tt)
      → index_blocks N S m (bs ++ (b ∷ []))
        ≡ index_transactions N S (block_height N b) b.payload (N.iter b.payload) m'
  unfolding index_blocks
  index_blocks-append m m' [] b e = ground arith
  index_blocks-append m m' (x ∷ bs) b e =
      let p = index_transactions N S (block_height N x) x.payload (N.iter x.payload) m in
      elim (Result-cases p.1) [
        | inl (u, good) ↦
            rw (good, index_blocks) (index_blocks-append p.0 m' bs b (rw (good, index_blocks) at e))
        | inr (f, bad) ↦ absurd (ground arith)
      ]

  module _ (lv : AppendLogLaws S.leaves) (bv : AppendLogLaws S.blocks) where
    -- The data source whose indices are built from the leaves of `ds`, in their order.
    abbrev pub rebuilt : FileSystemDataSource N S → FileSystemDataSource N S
    rebuilt ds =
        index_leaves N S (empty_source N S ds.leaf_storage ds.block_storage)
          (somes (objects S.leaves lv ds.leaf_storage))

    -- The three indices of leaves, which `index_leaf` reads and writes.
    pub record SameIndices (a b : FileSystemDataSource N S) : Type 0 where
      pub by_leaf : a.index_by_leaf_hash ≡ b.index_by_leaf_hash
      pub by_block : a.index_by_block_hash ≡ b.index_by_block_hash
      pub by_proposer : a.index_by_proposer_id ≡ b.index_by_proposer_id

    -- The indices of the data source are those that are built from the objects of its two logs.
    pub record IsIndexed (ds : FileSystemDataSource N S) : Type 0 where
      pub leaves : SameIndices ds (rebuilt ds)
      pub txns :
          index_blocks N S (λ _. none) (somes (objects S.blocks bv ds.block_storage))
          ≡ (ds.index_by_txn_hash, ok tt)

    index_leaf-SameIndices :
        {a b : FileSystemDataSource N S} (l : LeafQueryData N)
        → SameIndices a b
        → SameIndices (index_leaf N S a l) (index_leaf N S b l)
    unfolding index_leaf
    index_leaf-SameIndices {a} {b} l q = record {
      by_leaf = rw q.by_leaf;
      by_block = rw q.by_block;
      by_proposer = rw q.by_proposer;
    }

    index_leaves-SameIndices :
        (a b : FileSystemDataSource N S) (ls : List (LeafQueryData N))
        → SameIndices a b
        → SameIndices (index_leaves N S a ls) (index_leaves N S b ls)
    unfolding index_leaves
    index_leaves-SameIndices a b [] q = q
    index_leaves-SameIndices a b (l ∷ ls) q =
        index_leaves-SameIndices (index_leaf N S a l) (index_leaf N S b l) ls
          (index_leaf-SameIndices l q)

    SameIndices-trans :
        {a b c : FileSystemDataSource N S} → SameIndices a b → SameIndices b c → SameIndices a c
    SameIndices-trans p q = record {
      by_leaf = p.by_leaf ∙ q.by_leaf;
      by_block = p.by_block ∙ q.by_block;
      by_proposer = p.by_proposer ∙ q.by_proposer;
    }

    -- What is built from a list of leaves does not depend on the logs.
    from_empty :
        (a b : FileSystemDataSource N S) (ls : List (LeafQueryData N))
        → SameIndices
            (index_leaves N S (empty_source N S a.leaf_storage a.block_storage) ls)
            (index_leaves N S (empty_source N S b.leaf_storage b.block_storage) ls)
    unfolding empty_source
    from_empty a b ls =
        index_leaves-SameIndices (empty_source N S a.leaf_storage a.block_storage)
          (empty_source N S b.leaf_storage b.block_storage) ls
          (record { by_leaf = refl; by_block = refl; by_proposer = refl })

    -- The indices depend on the objects of the logs alone.
    pub kept-IsIndexed :
        (a b : FileSystemDataSource N S)
        → SameIndices b a
        → b.index_by_txn_hash ≡ a.index_by_txn_hash
        → objects S.leaves lv b.leaf_storage ≡ objects S.leaves lv a.leaf_storage
        → objects S.blocks bv b.block_storage ≡ objects S.blocks bv a.block_storage
        → IsIndexed a
        → IsIndexed b
    kept-IsIndexed a b same same_txns leaves_kept blocks_kept q = record {
      leaves = SameIndices-trans same (
          SameIndices-trans q.leaves (
            subst
              (λ xs.
                SameIndices (rebuilt a)
                  (index_leaves N S (empty_source N S b.leaf_storage b.block_storage) (somes xs)))
              (sym leaves_kept) (from_empty a b (somes (objects S.leaves lv a.leaf_storage)))));
      txns =
          ap (λ ys. index_blocks N S (λ _. none) (somes ys)) blocks_kept
          ∙ q.txns
          ∙ ap (λ m. (m, ok tt)) (sym same_txns);
    }

    -- A successful insert of a leaf at the end of a well-formed chain or behind it keeps the
    -- indices equal to those that opening builds from the stored objects.
    pub insert_leaf-IsIndexed :
        (ds : FileSystemDataSource N S) (l : LeafQueryData N)
        → len S.leaves lv ds.leaf_storage ≤ leaf_height N l
        → IsOk (insert_leaf N S ds l).1
        → IsSound S.leaves lv ds.leaf_storage
        → IsIndexed ds
        → IsIndexed (insert_leaf N S ds l).0
    unfolding index_leaf
    insert_leaf-IsIndexed ds l far good s q =
        let (stored_ok, e) = insert_leaf_fields N S ds l good in
        let height = leaf_height N l in
        let log = (insert S.leaves ds.leaf_storage height l).0 in
        let ds' = record ds { leaf_storage = log } in
        let xs = objects S.leaves lv ds.leaf_storage in
        let (grew, _) = insert_at_end S.leaves lv ds.leaf_storage height l far stored_ok s in
        let base = empty_source N S log ds.block_storage in
        let built : rebuilt (index_leaf N S ds' l)
            ≡ index_leaf N S (index_leaves N S base (somes xs)) l =
          ap (λ ys. index_leaves N S base (somes ys)) grew
          ∙ ap (index_leaves N S base)
              (somes-extend xs (height - len S.leaves lv ds.leaf_storage) l)
          ∙ index_leaves-append base (somes xs) l in
        rw e (record {
          leaves = rw built (
              index_leaf-SameIndices l (
                SameIndices-trans
                  (record {
                    by_leaf = q.leaves.by_leaf;
                    by_block = q.leaves.by_block;
                    by_proposer = q.leaves.by_proposer;
                  })
                  (from_empty ds ds' (somes xs))));
          txns = q.txns;
        })

    -- So does a block.
    insert_block_fields :
        (ds : FileSystemDataSource N S) (b : BlockQueryData N)
        → IsOk (insert_block N S ds b).1
        → IsOk (insert S.blocks ds.block_storage (block_height N b) b).1
          × (index_transactions N S
                (block_height N b)
                b.payload
                (N.iter b.payload)
                ds.index_by_txn_hash
              ≡ ((insert_block N S ds b).0.index_by_txn_hash, ok tt))
          × ((insert_block N S ds b).0 ≡ record ds {
            block_storage = (insert S.blocks ds.block_storage (block_height N b) b).0;
            index_by_txn_hash = (insert_block N S ds b).0.index_by_txn_hash;
          })
    unfolding insert_block
    insert_block_fields ds b good = ground arith

    -- A successful insert of a block at the end of a well-formed chain or behind it keeps the
    -- indices equal to those that opening builds from the stored objects.
    pub insert_block-IsIndexed :
        (ds : FileSystemDataSource N S) (b : BlockQueryData N)
        → len S.blocks bv ds.block_storage ≤ block_height N b
        → IsOk (insert_block N S ds b).1
        → IsSound S.blocks bv ds.block_storage
        → IsIndexed ds
        → IsIndexed (insert_block N S ds b).0
    insert_block-IsIndexed ds b far good s q =
        let (stored_ok, indexed, e) = insert_block_fields ds b good in
        let height = block_height N b in
        let xs = objects S.blocks bv ds.block_storage in
        let (grew, _) = insert_at_end S.blocks bv ds.block_storage height b far stored_ok s in
        let ds' = (insert_block N S ds b).0 in
        let log = (insert S.blocks ds.block_storage height b).0 in
        rw e (record {
          leaves =
              SameIndices-trans
                (record {
                  by_leaf = q.leaves.by_leaf;
                  by_block = q.leaves.by_block;
                  by_proposer = q.leaves.by_proposer;
                })
                (from_empty ds (record ds { block_storage = log })
                  (somes (objects S.leaves lv ds.leaf_storage)));
          txns =
              ap (λ ys. index_blocks N S (λ _. none) (somes ys)) grew
              ∙ ap (index_blocks N S (λ _. none))
                  (somes-extend xs (height - len S.blocks bv ds.block_storage) b)
              ∙ index_blocks-append (λ _. none) ds.index_by_txn_hash (somes xs) b q.txns
              ∙ indexed;
        })

    index_leaves_keeps :
        (ds : FileSystemDataSource N S) (ls : List (LeafQueryData N))
        → ((index_leaves N S ds ls).index_by_txn_hash ≡ ds.index_by_txn_hash)
          × ((index_leaves N S ds ls).leaf_storage ≡ ds.leaf_storage)
          × ((index_leaves N S ds ls).block_storage ≡ ds.block_storage)
    unfolding index_leaves
    index_leaves_keeps ds [] = (refl, refl, refl)
    index_leaves_keeps ds (l ∷ ls) = index_leaves_keeps (index_leaf N S ds l) ls

    -- Opening the two stores of an indexed data source that has nothing pending and fewer than
    -- 2^64 - 1 objects in each log, with positive cache sizes, succeeds and gives back the four
    -- indices and the objects of both logs.
    pub rebuild-opened :
        (ds : FileSystemDataSource N S) (n m : ℕ)
        → IsIndexed ds
        → lv.pending ds.leaf_storage.store ≡ []
        → bv.pending ds.block_storage.store ≡ []
        → IsSmall S.leaves lv ds.leaf_storage
        → IsSmall S.blocks bv ds.block_storage
        → 0 < n
        → 0 < m
        → (ds' : FileSystemDataSource N S) × (rebuild N S
              (opened S.leaves ds.leaf_storage.store n)
              (opened S.blocks ds.block_storage.store m)
            ≡ ok ds')
          × SameIndices ds ds'
          × (ds'.index_by_txn_hash ≡ ds.index_by_txn_hash)
          × (objects S.leaves lv ds'.leaf_storage ≡ objects S.leaves lv ds.leaf_storage)
          × (objects S.blocks bv ds'.block_storage ≡ objects S.blocks bv ds.block_storage)
    unfolding rebuild
    rebuild-opened ds n m q none_l none_b small_l small_b pos_n pos_m =
        let lo = opened S.leaves ds.leaf_storage.store n in
        let bo = opened S.blocks ds.block_storage.store m in
        let (le, ls, lh) = reopened_log S.leaves lv ds.leaf_storage n none_l pos_n in
        let (be, bs, bh) = reopened_log S.blocks bv ds.block_storage m none_b pos_m in
        let xs = somes (objects S.leaves lv ds.leaf_storage) in
        let read_l = flatten_iter-objects S.leaves lv lo ls lh (rw le small_l) ∙ ap somes le in
        let read_b = flatten_iter-objects S.blocks bv bo bs bh (rw be small_b) ∙ ap somes be in
        let base = empty_source N S lo bo in
        let d = index_leaves N S base xs in
        let (t, l, b) = index_leaves_keeps base xs in
        let ds' = record d { index_by_txn_hash = ds.index_by_txn_hash } in
        let same =
          SameIndices-trans q.leaves
            (from_empty ds (record ds { leaf_storage = lo; block_storage = bo }) xs) in
        (
          ds',
          rw (read_l, read_b, t, q.txns, rebuild),
          record {
            by_leaf = same.by_leaf;
            by_block = same.by_block;
            by_proposer = same.by_proposer;
          },
          refl,
          ap (objects S.leaves lv) l ∙ le,
          ap (objects S.blocks bv) b ∙ be,
        )
