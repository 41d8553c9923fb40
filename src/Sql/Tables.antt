-- ===== src/Sql/Tables.antt =====
-- The tables of migrations/V10__init_schema.sql, and what a client of Postgres sees of them.
use hotshot_query_service.Prelude.{
  ℕ, Option, none, some, List, [], ◌∷◌, Bool, true, false, if◌then◌else◌, ◌==◌, map_option,
}
use hotshot_query_service.Availability.Payload.{find}
use hotshot_query_service.Metrics.Values.{ℤ, pos, negsuc}

pub record PayloadRow : Type 0 where
  pub height : ℤ
  pub size : Option ℤ
  pub bytes : Option (List ℕ)

module _ (J T : Type 0) where
  pub record HeaderRow : Type 0 where
    pub height : ℤ
    pub hash : T
    pub header_data : J

  pub record LeafRow : Type 0 where
    pub height : ℤ
    pub hash : T
    pub proposer : T
    pub block_hash : T
    pub leaf : J
    pub qc : J

  -- `id` is the position in the list.
  pub record TransactionRow : Type 0 where
    pub hash : T
    pub block_height : ℤ
    pub index : J

  pub record Tables : Type 0 where
    pub header : List HeaderRow
    pub payload : List PayloadRow
    pub leaf : List LeafRow
    pub transaction : List TransactionRow

  -- What a client sees of the database: the tables that are durable, the tables as its transaction has
  -- changed them, whether a transaction is in progress, and whether it has failed.
  pub record Session : Type 0 where
    pub durable : Tables
    pub tables : Tables
    pub in_transaction : Bool
    pub failed : Bool

  -- The effect of `BEGIN`, `COMMIT` and `ROLLBACK`. The commit of a failed transaction rolls it back.
  unfoldable pub begin : Session → Session
  begin s = record s { in_transaction = true }

  unfoldable pub committed : Session → Session
  committed s =
      if s.failed
      then record {
        durable = s.durable;
        tables = s.durable;
        in_transaction = false;
        failed = false;
      }
      else record { durable = s.tables; tables = s.tables; in_transaction = false; failed = false }

  unfoldable pub rolled_back : Session → Session
  rolled_back s = record {
    durable = s.durable;
    tables = s.durable;
    in_transaction = false;
    failed = false;
  }

-- `=` on integers
unfoldable pub eq_int : ℤ → ℤ → Bool
eq_int (pos m) (pos n) = m == n
eq_int (negsuc m) (negsuc n) = m == n
eq_int (pos m) (negsuc n) = false
eq_int (negsuc m) (pos n) = false

module _ {J T : Type 0} where
  abbrev pub find_leaf : ℤ → List (LeafRow J T) → Option (LeafRow J T)
  find_leaf h rows = find (λ r. eq_int r.height h) rows

  abbrev pub find_header : ℤ → List (HeaderRow J T) → Option (HeaderRow J T)
  find_header h rows = find (λ r. eq_int r.height h) rows

abbrev pub find_payload : ℤ → List PayloadRow → Option PayloadRow
find_payload h rows = find (λ r. eq_int r.height h) rows

-- The payload of a height, set.
unfoldable pub set_payload : List ℕ → ℤ → ℤ → List PayloadRow → List PayloadRow
unfolding eq_int
set_payload data' size h [] = []
set_payload data' size h (r ∷ rs) =
    (if eq_int r.height h then record r { size = some size; bytes = some data' } else r)
    ∷ set_payload data' size h rs

-- A header beside the payload of its height.
unfoldable pub find_block : {J T : Type 0} → ℤ → Tables J T → Option (HeaderRow J T × PayloadRow)
find_block h tables = elim (find_header h tables.header) [
  | none ↦ none
  | some header ↦ map_option (λ payload. (header, payload)) (find_payload h tables.payload)
]
