-- ===== src/FileSystem/Open.antt =====
-- Opening an existing `FileSystemDataSource` (src/data_source/fs.rs): the indices are rebuilt from
-- what is stored.
use hotshot_query_service.Prelude.{
  ℕ, zero, suc, ◌+◌, Option, none, some, List, [], ◌∷◌, Result, ok, err, Fault, error, ◌>>=◌,
  map_err,
}
use hotshot_query_service.NodeTypes.{NodeTypes}
use hotshot_query_service.LedgerLog.Iter.{Iter, next, count}
use hotshot_query_service.LedgerLog.Defs.{LedgerLog, open_log, iter}
use hotshot_query_service.Availability.QueryData.{LeafQueryData, BlockQueryData, block_height}
use hotshot_query_service.FileSystem.Defs.{
  Storage, FileSystemDataSource, empty_source, index_leaf, index_transactions, insert_genesis,
  finish, cached_leaves_count, cached_blocks_count,
}

-- `iter().flatten()`: the objects that are not missing. The fuel is the number of objects, and one.
unfoldable pub flatten_iter : {E T : Type 0} → ℕ → Iter E T → List T
flatten_iter zero it = []
flatten_iter (suc fuel) it = elim (next it).0 [
  | none ↦ []
  | some entry ↦ elim entry [
    | none ↦ flatten_iter fuel (next it).1
    | some obj ↦ obj ∷ flatten_iter fuel (next it).1
  ]
]

module _ (N : NodeTypes) {E : Type 0} (S : Storage N E) where
  unfoldable pub index_leaves :
      FileSystemDataSource N S → List (LeafQueryData N) → FileSystemDataSource N S
  unfolding index_leaf
  index_leaves ds [] = ds
  index_leaves ds (l ∷ ls) = index_leaves (index_leaf N S ds l) ls

  unfoldable pub index_blocks :
      (N.TransactionHash → Option (ℕ × N.TransactionIndex))
      → List (BlockQueryData N)
      → (N.TransactionHash → Option (ℕ × N.TransactionIndex)) × Result (Fault E) (Unit {0})
  unfolding index_transactions
  index_blocks index [] = (index, ok tt)
  index_blocks index (b ∷ bs) =
      let (index', res) =
        index_transactions N S (block_height N b) b.payload (N.iter b.payload) index in
      let rest = index_blocks index' bs in elim res [ ok _ ↦ rest | err e ↦ (index', err e) ]

  -- The data source over two loaded logs, before the genesis block is ensured.
  unfoldable pub rebuild :
      LedgerLog S.leaves → LedgerLog S.blocks → Result (Fault E) (FileSystemDataSource N S)
  unfolding index_leaves index_blocks flatten_iter empty_source iter
  rebuild leaves blocks =
      let li = iter S.leaves leaves in
      let bi = iter S.blocks blocks in
      let ds = index_leaves (empty_source N S leaves blocks) (flatten_iter (count li + 1) li) in
      let (index, res) = index_blocks ds.index_by_txn_hash (flatten_iter (count bi + 1) bi) in
      do _ ← res; ok (record ds { index_by_txn_hash = index })

  -- The arguments are what `AppendLog::load` returns for the two logs.
  unfoldable pub open_with_store :
      Result E S.leaves.Store
      → Result E S.blocks.Store
      → Result (Fault E) (FileSystemDataSource N S)
  unfolding rebuild insert_genesis
  open_with_store leaves_loaded blocks_loaded = do
    leaves ← map_err error (open_log S.leaves leaves_loaded cached_leaves_count)
    blocks ← map_err error (open_log S.blocks blocks_loaded cached_blocks_count)
    ds ← rebuild leaves blocks
    finish N S (insert_genesis N S ds)

  -- The last argument is what `AtomicStore::open` returns.
  unfoldable pub open_source :
      Result E S.leaves.Store
      → Result E S.blocks.Store
      → Result E S.AtomicStore
      → Result (Fault E) (FileSystemDataSource N S)
  unfolding open_with_store
  open_source leaves_loaded blocks_loaded opened = do
    ds ← open_with_store leaves_loaded blocks_loaded
    store ← map_err error opened
    ok (record ds { top_storage = some store })
