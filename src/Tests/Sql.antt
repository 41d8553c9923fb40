-- ===== src/Tests/Sql.antt =====
-- The theorems on the data source of src/data_source/sql.rs, applied to a database in memory.
use hotshot_query_service.Sql.Clauses.{clause_text, by_height, keep}
use hotshot_query_service.Availability.Payload.{transaction, find, transaction}
use hotshot_query_service.Prelude.{
  ℕ, List, [], ◌∷◌, ok, err, ◌≡◌, refl, sym, arith, false, true, length,
}
use hotshot_query_service.Availability.QueryData.{
  LeafQueryData, BlockQueryData, payload_size, genesis_leaf, genesis_block,
}
use hotshot_query_service.Errors.{not_found_error, missing}
use hotshot_query_service.FileSystem.Defs.{number}
use hotshot_query_service.FileSystem.Range.{included, excluded}
use hotshot_query_service.Sql.Client.{Encodings, EncodingLaws, as_i64}
use hotshot_query_service.Sql.Tables.{Tables, begin, committed, eq_int}
use hotshot_query_service.Sql.Ends.{quiet}
use hotshot_query_service.Sql.Connect.{open_source, insert_genesis}
use hotshot_query_service.Sql.Defs.{SqlDataSource, insert_leaf, insert_block, commit}
use hotshot_query_service.Sql.Queries.{
  get_leaf, get_block, get_leaf_range, parse_leaf, source_height, bounds_to_where_clause,
  leaf_range_query, block_query,
}
use hotshot_query_service.Sql.Store.{
  Event, stored_leaf, version_committed, replay, Reaches, started, leaf_stored, was_committed,
}
use hotshot_query_service.Sql.Sound.{view}
use hotshot_query_service.Sql.Reached.{Reaches-broadcast, Reaches-replay}
use hotshot_query_service.Sql.Reads.{insert_leaf_visible, get_block-insert_block, block_of}
use hotshot_query_service.Sql.Genesis.{insert_genesis-stored}
use hotshot_query_service.Sql.Clauses.{Comparison, clause_text, all_hold}
use hotshot_query_service.Sql.Ranges.{
  IsSmall, contains, bounds_to_where_clause-contains, in_range, get_leaf_range-in_range,
}
use hotshot_query_service.Sql.Sessions.{session_of, IsSynced}
use hotshot_query_service.Update
use hotshot_query_service.Update.{decide}
use hotshot_query_service.Tests.{numbers}
use hotshot_query_service.Tests.Memory.{State, memory_client}
use hotshot_query_service.Tests.MemoryLaws.{memory_postgres, some-injective}

-- Everything is its own encoding.
abbrev pub plain : Encodings numbers
plain = record {
  Json = ℕ;
  Text = ℕ;
  leaf_to_json = λ l. ok l;
  leaf_from_json = λ j. ok j;
  qc_to_json = λ q. ok q;
  qc_from_json = λ j. ok j;
  header_to_json = λ h. ok h;
  header_from_json = λ j. ok j;
  index_to_json = λ i. ok i;
  index_from_json = λ j. ok j;
  leaf_hash_text = λ h. h;
  block_hash_text = λ h. h;
  block_hash_parse = λ t. ok t;
  transaction_hash_text = λ h. h;
  key_text = λ k. k;
  encode_error = λ p. "";
  from_bytes = λ bytes h. bytes;
}

abbrev pub plain_laws : EncodingLaws plain
plain_laws = record {
  leaf_round = λ l j e. sym e;
  qc_round = λ q j e. sym e;
  header_round = λ h j e. sym e;
  hash_round = λ h. refl;
}

abbrev pub no_rows : Tables ℕ ℕ
no_rows = record { header = []; payload = []; leaf = []; transaction = [] }

abbrev pub empty_db : State
empty_db = quiet numbers plain memory_client memory_postgres no_rows

abbrev pub opened_source : SqlDataSource numbers plain memory_client
opened_source = open_source numbers plain memory_client empty_db

abbrev pub leaf : ℕ → LeafQueryData numbers
leaf n = record { leaf = n; qc = n }

-- A leaf is stored and committed, and another one is stored.
abbrev one_leaf : SqlDataSource numbers plain memory_client
one_leaf = (insert_leaf numbers plain memory_client opened_source (leaf 0)).0

abbrev one_version : SqlDataSource numbers plain memory_client
one_version = (commit numbers plain memory_client one_leaf).0

abbrev two_leaves : SqlDataSource numbers plain memory_client
two_leaves = (insert_leaf numbers plain memory_client one_version (leaf 1)).0

abbrev calls : List (Event (LeafQueryData numbers) (BlockQueryData numbers))
calls = stored_leaf (leaf 1) ∷ version_committed ∷ stored_leaf (leaf 0) ∷ []

two_leaves-Reaches : Reaches numbers plain memory_client opened_source calls two_leaves
unfolding insert_leaf open_source begin find commit committed eq_int as_i64
two_leaves-Reaches = leaf_stored (was_committed (leaf_stored started (leaf 0) tt) tt) (leaf 1) tt

Reaches-broadcast_example :
    ((view numbers plain plain_laws memory_client memory_postgres two_leaves).committed
      ≡ ok (leaf 0) ∷ [])
    × ((view numbers plain plain_laws memory_client memory_postgres two_leaves).current
        ≡ ok (leaf 0) ∷ ok (leaf 1) ∷ [])
    × ((session_of numbers plain memory_client memory_postgres two_leaves).failed ≡ false)
unfolding insert_leaf commit open_source begin find committed eq_int as_i64
Reaches-broadcast_example =
    Reaches-broadcast numbers plain plain_laws memory_client memory_postgres empty_db no_rows
      two_leaves calls refl two_leaves-Reaches

Reaches-replay_example :
    view numbers plain plain_laws memory_client memory_postgres two_leaves
    ≡ record { committed = ok (leaf 0) ∷ []; current = ok (leaf 0) ∷ ok (leaf 1) ∷ [] }
unfolding replay
Reaches-replay_example =
    Reaches-replay numbers plain plain_laws memory_client memory_postgres empty_db no_rows
      two_leaves calls refl two_leaves-Reaches

one_version-IsSynced : IsSynced numbers plain memory_client memory_postgres one_version
unfolding insert_leaf open_source begin find commit committed eq_int as_i64
one_version-IsSynced = refl

insert_leaf_visible_example :
    (get_leaf numbers plain memory_client one_version (number 1) ≡ err not_found_error)
    × (get_leaf numbers plain memory_client two_leaves (number 1) ≡ ok (leaf 1))
unfolding insert_leaf commit open_source begin find committed eq_int as_i64
insert_leaf_visible_example =
    insert_leaf_visible numbers plain plain_laws memory_client memory_postgres one_version (leaf 1)
      _ _ one_version-IsSynced tt refl refl

get_block-insert_block_example :
    (get_block numbers plain memory_client two_leaves (number 1) ≡ err missing)
    × (get_block numbers plain memory_client
          (insert_block numbers plain memory_client two_leaves (
            block_of numbers plain plain_laws memory_client memory_postgres
              (leaf 1)
              (5 ∷ 6 ∷ []))).0
          (number 1)
        ≡ ok
            (block_of numbers plain plain_laws memory_client memory_postgres (leaf 1) (5 ∷ 6 ∷ [])))
unfolding payload_size insert_leaf commit open_source begin find committed eq_int as_i64
    insert_block transaction block_query
get_block-insert_block_example =
    get_block-insert_block numbers plain plain_laws memory_client memory_postgres one_version
      (leaf 1) (5 ∷ 6 ∷ []) _ _ one_version-IsSynced (omega arith)
      (λ bytes e. some-injective (sym e)) tt tt refl refl

get_leaf_range-in_range_example :
    get_leaf_range numbers plain memory_client two_leaves (included 0) (excluded 1)
    ≡ ok (ok (leaf 0) ∷ [])
unfolding bounds_to_where_clause find leaf_range_query clause_text by_height keep insert_leaf commit
    open_source begin committed eq_int as_i64 in_range parse_leaf
get_leaf_range-in_range_example =
    get_leaf_range-in_range numbers plain memory_client memory_postgres two_leaves (included 0)
      (excluded 1) _ refl

bounds_to_where_clause-contains_example :
    (cs : List Comparison) × ((bounds_to_where_clause (included 1) (excluded 3) "height").0
      ≡ clause_text "height" cs)
    × (length (bounds_to_where_clause (included 1) (excluded 3) "height").1 ≡ length cs)
    × (all_hold (bounds_to_where_clause (included 1) (excluded 3) "height").1 cs (as_i64 2) ≡ true)
unfolding IsSmall contains
bounds_to_where_clause-contains_example =
    bounds_to_where_clause-contains (included 1) (excluded 3) 2 (omega arith) (omega arith)
      (omega arith)

insert_genesis-stored_example :
    view numbers plain plain_laws memory_client memory_postgres
      (insert_genesis numbers plain memory_client opened_source).0
    ≡ record { committed = ok (leaf 0) ∷ []; current = ok (leaf 0) ∷ [] }
unfolding genesis_leaf genesis_block source_height open_source insert_genesis begin find
insert_genesis-stored_example =
    insert_genesis-stored numbers plain plain_laws memory_client memory_postgres empty_db no_rows
      refl refl tt

-- A block with two transactions, at the height of the first leaf.
abbrev block : BlockQueryData numbers
block = record { header = 0; payload = 5 ∷ 6 ∷ []; hash = 0; size = 2 }

-- A service that handles a decision of two leaves.
abbrev pub events : List (Update.Event numbers)
events = decide (1 ∷ 0 ∷ []) 1 ∷ []
