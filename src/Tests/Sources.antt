-- ===== src/Tests/Sources.antt =====
-- The theorems on the data source of src/data_source/fs.rs and on its updates, applied to a data
-- source in memory.
use hotshot_query_service.Update.Decided.{all_decided}
use hotshot_query_service.Availability.Payload.{transaction}
use hotshot_query_service.Prelude.{
  ℕ, ◌+◌, none, some, [], ◌∷◌, reverse, ok, err, ◌≡◌, refl, arith, ℕ_discrete, length, ◌≤◌,
}
use hotshot_query_service.AppendLog.{AppendLogLaws}
use hotshot_query_service.Availability.QueryData.{
  LeafQueryData, BlockQueryData, new_leaf, new_block,
}
use hotshot_query_service.Errors.{missing}
use hotshot_query_service.FileSystem.Defs.{
  Storage, FileSystemDataSource, number, hash, empty_source, insert_leaf, insert_block, commit,
}
use hotshot_query_service.FileSystem.Flatten.{flatten_iter-objects, somes}
use hotshot_query_service.FileSystem.Open.{index_leaves, index_blocks, flatten_iter, rebuild}
use hotshot_query_service.FileSystem.Queries.{get_leaf, get_proposals, count_proposals}
use hotshot_query_service.FileSystem.Reopen.{
  IsIndexed, SameIndices, insert_leaf-IsIndexed, insert_block-IsIndexed, rebuild-opened,
}
use hotshot_query_service.FileSystem.Range.{
  included, excluded, range_stream, range_from, range_start,
}
use hotshot_query_service.FileSystem.Slice.{range_from-ends, slice, IsShort, range_stream-slice}
use hotshot_query_service.FileSystem.Stored.{get_leaf-insert_leaf, get_leaf-missing}
use hotshot_query_service.LedgerLog.Contents.{IsSound}
use hotshot_query_service.LedgerLog.Defs.{
  LedgerLog, opened, open_log, iter, insert, pad, store_resource, place, commit_version,
}
use hotshot_query_service.LedgerLog.Inv.{objects}
use hotshot_query_service.LedgerLog.Iter.{count, size_hint}
use hotshot_query_service.LedgerLog.Reads.{open_log-IsSound}
use hotshot_query_service.Tests.{memory_laws, numbers, memory_storage}
use hotshot_query_service.Update.{update, decide}
use hotshot_query_service.Update.Chain.{update-decide, justified, store_leaves, IsLinked}
use hotshot_query_service.Update.Service.{files, serve}
use hotshot_query_service.FileSystem.Served.{serve-reads}
use hotshot_query_service.FileSystem.Proposals.{get_proposals-proposed}
use hotshot_query_service.FileSystem.Reopen.{rebuilt}

abbrev pub S : Storage numbers ℕ
S = memory_storage

abbrev pub lv : AppendLogLaws S.leaves
lv = memory_laws (LeafQueryData numbers)

abbrev pub bv : AppendLogLaws S.blocks
bv = memory_laws (BlockQueryData numbers)

-- Nothing is stored.
abbrev pub ds : FileSystemDataSource numbers S
ds = empty_source numbers S (opened S.leaves ([], []) 100) (opened S.blocks ([], []) 100)

pub leaves-IsSound : IsSound S.leaves lv ds.leaf_storage
unfolding open_log empty_source
leaves-IsSound = (open_log-IsSound S.leaves lv ([], []) 100 refl (omega arith) refl).1

pub blocks-IsSound : IsSound S.blocks bv ds.block_storage
unfolding open_log empty_source
blocks-IsSound = (open_log-IsSound S.blocks bv ([], []) 100 refl (omega arith) refl).1

-- A leaf behind the end of the chain, and its block.
abbrev leaf : LeafQueryData numbers
leaf = record { leaf = 2; qc = 2 }

abbrev pub block : BlockQueryData numbers
block = record { header = 1; payload = 101 ∷ 102 ∷ []; hash = 1; size = 2 }

-- The data source with the leaf committed.
abbrev stored : FileSystemDataSource numbers S
stored = (commit numbers S (insert_leaf numbers S ds leaf).0).0

get_leaf-insert_leaf_example :
    (get_leaf numbers S stored (number 2) ≡ ok leaf)
    × (get_leaf numbers S stored (hash 2) ≡ ok leaf)
unfolding empty_source opened insert_leaf insert pad store_resource place commit commit_version
get_leaf-insert_leaf_example =
    get_leaf-insert_leaf numbers S lv ds leaf (omega arith) (omega arith) tt tt leaves-IsSound

get_leaf-missing_example : get_leaf numbers S stored (number 1) ≡ err missing
unfolding insert_leaf insert pad empty_source opened store_resource place commit commit_version
get_leaf-missing_example =
    get_leaf-missing numbers S lv ds leaf 1 (omega arith) tt tt leaves-IsSound (omega arith)
      (omega arith)

pub ds-IsIndexed : IsIndexed numbers S lv bv ds
unfolding index_leaves empty_source opened index_blocks
ds-IsIndexed = record {
  leaves = record { by_leaf = refl; by_block = refl; by_proposer = refl };
  txns = refl;
}

insert_leaf-IsIndexed_example : IsIndexed numbers S lv bv (insert_leaf numbers S ds leaf).0
unfolding empty_source opened insert_leaf insert pad store_resource place
insert_leaf-IsIndexed_example =
    insert_leaf-IsIndexed numbers S lv bv ds leaf (omega arith) tt leaves-IsSound ds-IsIndexed

insert_block-IsIndexed_example : IsIndexed numbers S lv bv (insert_block numbers S ds block).0
unfolding empty_source opened insert_block insert pad store_resource place transaction
insert_block-IsIndexed_example =
    insert_block-IsIndexed numbers S lv bv ds block (omega arith) tt blocks-IsSound ds-IsIndexed

-- A data source whose logs hold a leaf and a block behind a placeholder.
abbrev full : FileSystemDataSource numbers S
full =
    record (index_leaves numbers S
      (empty_source numbers S (opened S.leaves (none ∷ some leaf ∷ [], []) 100)
        (opened S.blocks (none ∷ some block ∷ [], []) 100))
      (leaf ∷ [])) { index_by_txn_hash = (index_blocks numbers S (λ _. none) (block ∷ [])).0 }

full-IsIndexed : IsIndexed numbers S lv bv full
unfolding index_leaves index_blocks empty_source opened transaction
full-IsIndexed = record {
  leaves = record { by_leaf = refl; by_block = refl; by_proposer = refl };
  txns = refl;
}

rebuild-opened_example :
    (ds' : FileSystemDataSource numbers S) × (rebuild numbers S
        (opened S.leaves full.leaf_storage.store 100)
        (opened S.blocks full.block_storage.store 100)
      ≡ ok ds')
    × SameIndices numbers S lv bv full ds'
    × (ds'.index_by_txn_hash ≡ full.index_by_txn_hash)
    × (objects S.leaves lv ds'.leaf_storage ≡ objects S.leaves lv full.leaf_storage)
    × (objects S.blocks bv ds'.block_storage ≡ objects S.blocks bv full.block_storage)
unfolding commit commit_version insert_leaf insert pad empty_source opened store_resource place
    index_leaves
rebuild-opened_example =
    rebuild-opened numbers S lv bv full 100 100 full-IsIndexed refl refl (omega arith) (omega arith)
      (omega arith) (omega arith)

-- A log with a placeholder.
abbrev gap : LedgerLog S.leaves
gap = opened S.leaves (some leaf ∷ none ∷ [], []) 1

flatten_iter-objects_example :
    flatten_iter (count (iter S.leaves gap) + 1) (iter S.leaves gap)
    ≡ somes (objects S.leaves lv gap)
unfolding open_log
flatten_iter-objects_example =
    flatten_iter-objects S.leaves lv gap
      (open_log-IsSound S.leaves lv (some leaf ∷ none ∷ [], []) 1 refl (omega arith) refl).1
      (omega arith) (omega arith)

range_stream-slice_example :
    range_stream (iter S.leaves gap) (excluded 0) (included 1) ≡ err missing ∷ []
unfolding slice IsShort open_log
range_stream-slice_example =
    range_stream-slice S.leaves lv gap (excluded 0) (included 1)
      (open_log-IsSound S.leaves lv (some leaf ∷ none ∷ [], []) 1 refl (omega arith) refl).1
      (omega arith) (omega arith) (omega arith)

range_from-ends_example :
    (range_from 9
        (included 1)
        (range_start (excluded 0) (iter S.leaves gap)).0
        (range_start (excluded 0) (iter S.leaves gap)).1
      ≡ range_stream (iter S.leaves gap) (excluded 0) (included 1))
    × (length (range_stream (iter S.leaves gap) (excluded 0) (included 1))
        ≤ count (iter S.leaves gap))
unfolding IsShort open_log iter count size_hint
range_from-ends_example =
    range_from-ends S.leaves lv gap (excluded 0) (included 1) 9
      (open_log-IsSound S.leaves lv (some leaf ∷ none ∷ [], []) 1 refl (omega arith) refl).1
      (omega arith) (omega arith) (omega arith) (omega arith)

update-decide_example :
    update numbers (files numbers S).availability ds (decide (2 ∷ 1 ∷ []) 2)
    ≡ store_leaves numbers
        (files numbers S).availability
        (reverse (justified numbers 2 (2 ∷ 1 ∷ [])))
        ds
unfolding IsLinked
update-decide_example =
    update-decide numbers (files numbers S).availability ds 2 (2 ∷ 1 ∷ []) (refl, (refl, tt))

serve-reads_example :
    (objects S.leaves lv
        (serve numbers (files numbers S) (decide (1 ∷ 0 ∷ []) 1 ∷ []) ds).0.leaf_storage
      ≡ some (record { leaf = 0; qc = 0 }) ∷ some (record { leaf = 1; qc = 1 }) ∷ [])
    × (get_leaf numbers S
          (serve numbers (files numbers S) (decide (1 ∷ 0 ∷ []) 1 ∷ []) ds).0
          (number 1)
        ≡ ok (record { leaf = 1; qc = 1 }))
unfolding empty_source opened all_decided serve new_leaf ℕ_discrete insert_leaf insert pad place
    store_resource new_block insert_block transaction commit commit_version
serve-reads_example =
    serve-reads numbers S lv (decide (1 ∷ 0 ∷ []) 1 ∷ []) ds 1 leaves-IsSound (omega arith)
      (refl, (refl, tt)) (omega arith) tt

-- Two leaves of one proposer.
abbrev two : FileSystemDataSource numbers S
two =
    index_leaves numbers S
      (empty_source numbers S
        (opened S.leaves
          (some (record { leaf = 0; qc = 0 }) ∷ some (record { leaf = 1; qc = 1 }) ∷ [], []) 100)
        (opened S.blocks ([], []) 100))
      (record { leaf = 0; qc = 0 } ∷ record { leaf = 1; qc = 1 } ∷ [])

two-SameIndices : SameIndices numbers S lv bv two (rebuilt numbers S lv bv two)
unfolding index_leaves empty_source opened
two-SameIndices = record { by_leaf = refl; by_block = refl; by_proposer = refl }

get_proposals-proposed_example :
    (get_proposals numbers S two 7 (some 1) ≡ ok (record { leaf = 1; qc = 1 } ∷ []))
    × (count_proposals numbers S two 7 ≡ 2)
unfolding index_leaves empty_source open_log ℕ_discrete
get_proposals-proposed_example =
    get_proposals-proposed numbers S lv bv two 7 (some 1)
      (open_log-IsSound S.leaves lv
        (some (record { leaf = 0; qc = 0 }) ∷ some (record { leaf = 1; qc = 1 }) ∷ [], []) 100 refl
        (omega arith) refl).1
      (omega arith) (omega arith) (refl, (refl, tt)) two-SameIndices
