-- ===== src/Tests/Requests.antt =====
-- The theorem on requests for transactions, applied to a data source in memory.
use hotshot_query_service.Prelude.{ℕ, none, some, [], ok, err, error, ◌≡◌, ◌⊎◌, refl, arith}
use hotshot_query_service.Api.Errors.{query_transaction}
use hotshot_query_service.Api.Handlers.{RequestParams}
use hotshot_query_service.Api.Transactions.{by_hash, answered, handle_gettransaction_lem}
use hotshot_query_service.Availability.Payload.{transaction}
use hotshot_query_service.Availability.QueryData.{TransactionQueryData}
use hotshot_query_service.Errors.{not_found_error}
use hotshot_query_service.FileSystem.Defs.{FileSystemDataSource, empty_source, insert_block, commit}
use hotshot_query_service.FileSystem.Transactions.Places.{
  IsServing, StandsAt, insert_block-IsServing,
}
use hotshot_query_service.LedgerLog.Defs.{
  opened, open_log, insert, pad, store_resource, place, commit_version,
}
use hotshot_query_service.LedgerLog.Reads.{open_log-IsSound}
use hotshot_query_service.Tests.{numbers}
use hotshot_query_service.Tests.Sources.{
  S, lv, bv, ds, block, leaves-IsSound, blocks-IsSound, ds-IsIndexed,
}

ds-IsServing : IsServing numbers S lv bv ds
unfolding open_log empty_source
ds-IsServing = record {
  sound = blocks-IsSound;
  settled = (open_log-IsSound S.blocks bv ([], []) 100 refl (omega arith) refl).2;
  small = omega arith;
  placed = λ n b e. absurd (ground (arith, e));
  is_indexed = ds-IsIndexed;
}

-- The data source with the block of two transactions committed.
abbrev pub serving : FileSystemDataSource numbers S
serving = (commit numbers S (insert_block numbers S ds block).0).0

pub serving-IsServing : IsServing numbers S lv bv serving
unfolding empty_source opened insert_block insert pad store_resource place commit commit_version
    transaction
serving-IsServing =
    insert_block-IsServing numbers S lv bv ds block ds-IsServing leaves-IsSound (omega arith) tt tt
      (omega arith)

-- A request for the second transaction of the block, by its hash.
abbrev pub request : RequestParams numbers ℕ
request = record {
  opt_height = ok none;
  height = err 0;
  index = err 0;
  opt_count = ok none;
  leaf_hash = err 0;
  block_hash = err 0;
  opt_transaction_hash = ok (some 102);
  proposer_id = err 0;
}

handle_gettransaction_lem_example :
    ((tx : TransactionQueryData numbers) × (n : ℕ) × (i : ℕ) × (answered numbers S lv bv serving
          request
        ≡ ok tx)
      × StandsAt numbers S lv bv serving n i tx
      × (tx.hash ≡ 102))
    ⊎ ((answered numbers S lv bv serving request
          ≡ err (error (query_transaction not_found_error 102)))
        × ¬ (
            (tx : TransactionQueryData numbers) × (n : ℕ) × (i : ℕ) × StandsAt numbers S lv bv
              serving n i tx
            × (tx.hash ≡ 102)))
handle_gettransaction_lem_example =
    handle_gettransaction_lem numbers S lv bv serving request (by_hash 102) serving-IsServing refl
