-- ===== src/FileSystem/Defs.antt =====
-- `FileSystemDataSource` of src/data_source/fs.rs. A method that takes `&mut self` returns the new
-- data source beside its result.
use hotshot_query_service.Prelude.{
  ℕ, Option, none, some, List, [], ◌∷◌, ◌==◌, if◌then◌else◌, Result, ok, err, Fault, error, panic,
  ◌>>=◌, map_err, map_fault, and_then, Bool, ltb, ◌&&◌, ◌||◌,
}
use hotshot_query_service.NodeTypes.{NodeTypes}
use hotshot_query_service.AppendLog.{AppendLog}
use hotshot_query_service.LedgerLog.Iter.{count}
use hotshot_query_service.LedgerLog.Defs.{
  LedgerLog, create, iter, insert, commit_version, skip_version, revert_version,
}
use hotshot_query_service.Availability.Payload.{transaction}
use hotshot_query_service.Availability.QueryData.{
  LeafQueryData, BlockQueryData, genesis_leaf, genesis_block, leaf_height, leaf_hash,
  leaf_block_hash, proposer, block_height,
}
use hotshot_query_service.FileSystem.Index.{insert_key, update_index_by_hash, push_entry}

-- The storage that the data source stands on (the crate atomic_store): two append logs and the
-- `AtomicStore` that synchronises them. `E` is `PersistenceError`.
pub record Storage (N : NodeTypes) (E : Type 0) : Type 1 where
  pub leaves : AppendLog E (LeafQueryData N)
  pub blocks : AppendLog E (BlockQueryData N)
  pub AtomicStore : Type 0
  pub commit_atomic : AtomicStore → AtomicStore × Result E (Unit {0})

-- `ResourceId`
pub data ResourceId (H : Type 0) : Type 0 where
  number : ℕ → ResourceId H
  hash : H → ResourceId H

abbrev pub cached_leaves_count : ℕ
cached_leaves_count = 100

abbrev pub cached_blocks_count : ℕ
cached_blocks_count = 100

-- The field `metrics` is left out: no operation here reads it (Status has the queries that do).
pub record FileSystemDataSource (N : NodeTypes) {E : Type 0} (S : Storage N E) : Type 0 where
  pub index_by_leaf_hash : N.LeafHash → Option ℕ
  pub index_by_block_hash : N.BlockHash → Option ℕ
  pub index_by_txn_hash : N.TransactionHash → Option (ℕ × N.TransactionIndex)
  pub index_by_proposer_id : N.EncodedPublicKey → Option (List ℕ)
  pub top_storage : Option S.AtomicStore
  pub leaf_storage : LedgerLog S.leaves
  pub block_storage : LedgerLog S.blocks

-- `<` on positions of transactions: the derived order of a pair.
abbrev pub lt_position : (N : NodeTypes) → ℕ × N.TransactionIndex → ℕ × N.TransactionIndex → Bool
lt_position N (h, i) (k, j) = ltb h k || ((h == k) && N.lt_index i j)

module _ (N : NodeTypes) {E : Type 0} (S : Storage N E) where
  -- The state before anything is stored.
  unfoldable pub empty_source : LedgerLog S.leaves → LedgerLog S.blocks → FileSystemDataSource N S
  empty_source leaves blocks = record {
    index_by_leaf_hash = λ _. none;
    index_by_block_hash = λ _. none;
    index_by_txn_hash = λ _. none;
    index_by_proposer_id = λ _. none;
    top_storage = none;
    leaf_storage = leaves;
    block_storage = blocks;
  }

  -- The part of `insert_leaf` behind the write to storage; `open_with_store` does the same with each
  -- leaf that it reads.
  unfoldable pub index_leaf : FileSystemDataSource N S → LeafQueryData N → FileSystemDataSource N S
  unfolding insert_key update_index_by_hash push_entry
  index_leaf ds l = record ds {
    index_by_leaf_hash =
        insert_key N.dec_leaf_hash (leaf_hash N l) (leaf_height N l) ds.index_by_leaf_hash;
    index_by_block_hash =
        update_index_by_hash N.dec_block_hash ltb ds.index_by_block_hash (leaf_block_hash N l)
          (leaf_height N l);
    index_by_proposer_id =
        push_entry N.dec_public_key ds.index_by_proposer_id (proposer N l) (leaf_height N l);
  }

  unfoldable pub insert_leaf :
      FileSystemDataSource N S
      → LeafQueryData N
      → FileSystemDataSource N S × Result (Fault E) (Unit {0})
  unfolding index_leaf
  insert_leaf ds l =
      let (log, res) = insert S.leaves ds.leaf_storage (leaf_height N l) l in
      elim res [
        | ok _ ↦ (index_leaf (record ds { leaf_storage = log }) l, ok tt)
        | err e ↦ (record ds { leaf_storage = log }, err e)
      ]

  -- The loop of `insert_block`. It ends with the panic of `enumerate` at an index of the payload
  -- for which there is no transaction.
  unfoldable pub index_transactions :
      ℕ
      → N.Payload
      → List N.TransactionIndex
      → (N.TransactionHash → Option (ℕ × N.TransactionIndex))
      → (N.TransactionHash → Option (ℕ × N.TransactionIndex)) × Result (Fault E) (Unit {0})
  unfolding update_index_by_hash
  index_transactions height payload [] index = (index, ok tt)
  index_transactions height payload (ix ∷ ixs) index = elim (transaction N payload ix) [
    | none ↦ (index, err panic)
    | some tx ↦ index_transactions height payload ixs (
        update_index_by_hash N.dec_transaction_hash (lt_position N) index (N.commit_transaction tx)
          (height, ix))
  ]

  unfoldable pub insert_block :
      FileSystemDataSource N S
      → BlockQueryData N
      → FileSystemDataSource N S × Result (Fault E) (Unit {0})
  unfolding index_transactions
  insert_block ds b =
      let (log, res) = insert S.blocks ds.block_storage (block_height N b) b in
      elim res [
        | err e ↦ (record ds { block_storage = log }, err e)
        | ok _ ↦
            let (index, done) =
              index_transactions (block_height N b) b.payload (N.iter b.payload)
                ds.index_by_txn_hash in
            (record ds { block_storage = log; index_by_txn_hash = index }, done)
      ]

  commit_leaves : FileSystemDataSource N S → FileSystemDataSource N S × Result E (Unit {0})
  commit_leaves ds =
      let (log, res) = commit_version S.leaves ds.leaf_storage in
      (record ds { leaf_storage = log }, res)

  commit_blocks : FileSystemDataSource N S → FileSystemDataSource N S × Result E (Unit {0})
  commit_blocks ds =
      let (log, res) = commit_version S.blocks ds.block_storage in
      (record ds { block_storage = log }, res)

  -- Where the data source manages its own `AtomicStore`, its version is advanced.
  commit_top : FileSystemDataSource N S → FileSystemDataSource N S × Result E (Unit {0})
  commit_top ds = elim ds.top_storage [
    | none ↦ (ds, ok tt)
    | some store ↦
        let (store', res) = S.commit_atomic store in (record ds { top_storage = some store' }, res)
  ]

  unfoldable pub commit : FileSystemDataSource N S → FileSystemDataSource N S × Result E (Unit {0})
  unfolding commit_leaves commit_blocks commit_top
  commit ds = and_then (and_then (commit_leaves ds) commit_blocks) commit_top

  skip_leaves : FileSystemDataSource N S → FileSystemDataSource N S × Result E (Unit {0})
  skip_leaves ds =
      let (log, res) = skip_version S.leaves ds.leaf_storage in
      (record ds { leaf_storage = log }, res)

  skip_blocks : FileSystemDataSource N S → FileSystemDataSource N S × Result E (Unit {0})
  skip_blocks ds =
      let (log, res) = skip_version S.blocks ds.block_storage in
      (record ds { block_storage = log }, res)

  unfoldable pub skip : FileSystemDataSource N S → FileSystemDataSource N S × Result E (Unit {0})
  unfolding skip_leaves skip_blocks commit_top
  skip ds = and_then (and_then (skip_leaves ds) skip_blocks) commit_top

  -- A revert that fails panics.
  revert_leaves : FileSystemDataSource N S → FileSystemDataSource N S × Result (Fault E) (Unit {0})
  revert_leaves ds =
      let (log, res) = revert_version S.leaves ds.leaf_storage in
      (record ds { leaf_storage = log }, map_err (λ _. panic) res)

  revert_blocks : FileSystemDataSource N S → FileSystemDataSource N S × Result (Fault E) (Unit {0})
  revert_blocks ds =
      let (log, res) = revert_version S.blocks ds.block_storage in
      (record ds { block_storage = log }, map_err (λ _. panic) res)

  unfoldable pub revert :
      FileSystemDataSource N S → FileSystemDataSource N S × Result (Fault E) (Unit {0})
  unfolding revert_leaves revert_blocks
  revert ds = and_then (revert_leaves ds) revert_blocks

  -- `block_height` of `StatusDataSource`
  unfoldable pub source_height : FileSystemDataSource N S → ℕ
  source_height ds = count (iter S.leaves ds.leaf_storage)

  unfoldable pub insert_genesis :
      FileSystemDataSource N S → FileSystemDataSource N S × Result (Fault E) (Unit {0})
  unfolding insert_leaf insert_block commit source_height
  insert_genesis ds =
      if source_height ds == 0
      then and_then
          (and_then (insert_leaf ds (genesis_leaf N)) (λ ds'. insert_block ds' (genesis_block N)))
          (λ ds'. map_fault error (commit ds'))
      else (ds, ok tt)

  -- The data source, if the method succeeds.
  abbrev pub finish :
      {F : Type 0}
      → FileSystemDataSource N S × Result F (Unit {0})
      → Result F (FileSystemDataSource N S)
  finish (ds, ok _) = ok ds
  finish (ds, err e) = err e

  -- The arguments are what `AppendLog::create` returns for the two logs.
  unfoldable pub create_with_store :
      Result E S.leaves.Store
      → Result E S.blocks.Store
      → Result (Fault E) (FileSystemDataSource N S)
  unfolding insert_genesis empty_source
  create_with_store leaves_created blocks_created = do
    leaves ← map_err error (create S.leaves leaves_created cached_leaves_count)
    blocks ← map_err error (create S.blocks blocks_created cached_blocks_count)
    finish (insert_genesis (empty_source leaves blocks))

  -- The last argument is what `AtomicStore::open` returns.
  unfoldable pub create_source :
      Result E S.leaves.Store
      → Result E S.blocks.Store
      → Result E S.AtomicStore
      → Result (Fault E) (FileSystemDataSource N S)
  unfolding create_with_store
  create_source leaves_created blocks_created opened = do
    ds ← create_with_store leaves_created blocks_created
    store ← map_err error opened
    ok (record ds { top_storage = some store })
