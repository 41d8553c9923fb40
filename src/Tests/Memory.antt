-- ===== src/Tests/Memory.antt =====
-- A client of Postgres in memory, for the tests of src/data_source/sql.rs.
use hotshot_query_service.Prelude.{
  ℕ, Option, none, some, List, [], ◌∷◌, ◌++◌, map, Bool, true, false, if◌then◌else◌, Result, ok,
  err, map_option,
}
use Prim.Native.Nat.{Ordering}
use Prim.Native.String.{String, compare}
use hotshot_query_service.Availability.Payload.{find}
use hotshot_query_service.Metrics.Values.{ℤ}
use hotshot_query_service.Sql.Client.{Client, Param, bigint, integer, text, json, bytea}
use hotshot_query_service.Sql.Tables.{
  HeaderRow, PayloadRow, LeafRow, TransactionRow, Tables, Session, begin, committed, rolled_back,
  find_leaf, find_header, find_payload, find_block, set_payload,
}
use hotshot_query_service.Sql.Clauses.{
  Comparison, ge, gt, le, lt, clause_text, le_int, all_hold, keep, by_height,
}
use hotshot_query_service.Sql.Queries.{leaf_range_query}

-- Whether two texts are the same.
abbrev same : String → String → Bool
same s t = elim (compare s t) [ Ordering.eq ↦ true | _ ↦ false ]

abbrev pub State : Type 0
State = Session ℕ ℕ

-- A row of an answer.
pub data Answer : Type 0 where
  leaf_answer : LeafRow ℕ ℕ → Answer
  block_answer : HeaderRow ℕ ℕ → PayloadRow → Answer
  number_answer : Option ℤ → Answer

abbrev pub run_batch : State → String → State
run_batch s stmt =
    if same stmt "BEGIN"
    then begin ℕ ℕ s
    else (if same stmt "COMMIT" then committed ℕ ℕ s else rolled_back ℕ ℕ s)

-- The tables, unless there is a row already.
abbrev pub unless_found : {A : Type 0} → Option A → Tables ℕ ℕ → Option (Tables ℕ ℕ)
unless_found none t = some t
unless_found (some r) t = none

abbrev pub read_rows : List (Param ℕ ℕ) → Option (List (TransactionRow ℕ ℕ))
read_rows [] = some []
read_rows (text k ∷ bigint h ∷ json i ∷ params) =
    map_option
      (λ (rows : List (TransactionRow ℕ ℕ)).
        record { hash = k; block_height = h; index = i } ∷ rows)
      (read_rows params)
read_rows _ = none

-- A statement is told by its parameters.
abbrev pub effect : Tables ℕ ℕ → List (Param ℕ ℕ) → Option (Tables ℕ ℕ)
effect t (bigint h ∷ text k ∷ json j ∷ []) =
    unless_found (find_header h t.header)
      (record t { header = t.header ++ (record { height = h; hash = k; header_data = j } ∷ []) })
effect t (bigint h ∷ []) =
    unless_found (find_payload h t.payload)
      (record t { payload = t.payload ++ (record { height = h; size = none; bytes = none } ∷ []) })
effect t (bigint h ∷ text k ∷ text p ∷ text b ∷ json l ∷ json q ∷ []) =
    unless_found (find_leaf h t.leaf) (record t {
      leaf =
          t.leaf
          ++ (record { height = h; hash = k; proposer = p; block_hash = b; leaf = l; qc = q } ∷ []);
    })
effect t (bytea bytes ∷ integer size ∷ bigint h ∷ []) =
    some (record t { payload = set_payload bytes size h t.payload })
effect t (text k ∷ params) =
    map_option (λ rows. record t { transaction = t.transaction ++ rows })
      (read_rows (text k ∷ params))
effect t _ = none

abbrev pub run_statement : State → List (Param ℕ ℕ) → State × Result String (Unit {0})
run_statement s params =
    if s.failed then (s, err "the transaction has failed") else elim (effect s.tables params) [
      | none ↦ (record s { failed = true }, err "refused")
      | some t ↦ (record s { tables = t }, ok tt)
    ]

abbrev pub answer_one : State → String → List (Param ℕ ℕ) → Result String (Option Answer)
answer_one s stmt (bigint h ∷ []) =
    if same stmt "SELECT leaf, qc FROM leaf WHERE height = $1"
    then ok (map_option leaf_answer (find_leaf h s.tables.leaf))
    else ok (
        map_option (λ (b : HeaderRow ℕ ℕ × PayloadRow). block_answer b.0 b.1)
          (find_block h s.tables))
answer_one s stmt _ = err "unknown"

abbrev operators : List Comparison
operators = ge ∷ gt ∷ le ∷ lt ∷ []

-- The comparisons of a query with as many parameters.
abbrev pairs : Comparison → List (List Comparison)
pairs c = map (λ d. c ∷ d ∷ []) operators

abbrev clauses : List ℤ → List (List Comparison)
clauses [] = [] ∷ []
clauses (m ∷ []) = map (λ c. c ∷ []) operators
clauses (m ∷ n ∷ _) = pairs ge ++ pairs gt ++ pairs le ++ pairs lt

abbrev pub read_clause : String → List ℤ → Option (List Comparison)
read_clause stmt params =
    find (λ cs. same stmt (leaf_range_query (clause_text "height" cs))) (clauses params)

abbrev pub integers : List (Param ℕ ℕ) → Option (List ℤ)
integers [] = some []
integers (bigint n ∷ params) = map_option (λ (ns : List ℤ). n ∷ ns) (integers params)
integers _ = none

abbrev pub answer_range :
    State → List ℤ → Option (List Comparison) → Result String (List (Result String Answer))
answer_range s params none = err "unknown"
answer_range s params (some cs) = ok (
    map (λ r. ok (leaf_answer r))
      (by_height (keep (λ r. all_hold params cs r.height) s.tables.leaf)))

abbrev pub answer_all :
    State → String → List (Param ℕ ℕ) → Result String (List (Result String Answer))
answer_all s stmt params = elim (integers params) [
  | none ↦ err "unknown"
  | some ns ↦ answer_range s ns (read_clause stmt ns)
]

abbrev pub json_of : Answer → String → Result String ℕ
json_of (leaf_answer r) column = if same column "leaf" then ok r.leaf else ok r.qc
json_of (block_answer h p) column = ok h.header_data
json_of (number_answer n) column = err "no such column"

abbrev pub text_of : Answer → Result String ℕ
text_of (leaf_answer r) = ok r.hash
text_of (block_answer h p) = ok h.hash
text_of (number_answer n) = err "no such column"

abbrev pub size_of : Answer → Result String (Option ℤ)
size_of (leaf_answer r) = ok none
size_of (block_answer h p) = ok p.size
size_of (number_answer n) = ok none

abbrev pub bytes_of : Answer → Result String (Option (List ℕ))
bytes_of (leaf_answer r) = ok none
bytes_of (block_answer h p) = ok p.bytes
bytes_of (number_answer n) = ok none

abbrev pub number_of : Answer → Result String (Option ℤ)
number_of (leaf_answer r) = err "no such column"
number_of (block_answer h p) = err "no such column"
number_of (number_answer n) = ok n

-- The greatest height of a header.
abbrev pub greatest : List (HeaderRow ℕ ℕ) → Option ℤ
greatest [] = none
greatest (r ∷ rows) = elim (greatest rows) [
  | none ↦ some r.height
  | some h ↦ if le_int h r.height then some r.height else some h
]

abbrev pub memory_client : Client ℕ ℕ
memory_client = record {
  Db = State;
  Row = Answer;
  batch_execute = λ s stmt. (run_batch s stmt, ok tt);
  execute_raw = λ s stmt params. run_statement s params;
  query_opt = answer_one;
  query_one = λ s stmt params. ok (number_answer (greatest s.tables.header));
  query_raw = answer_all;
  try_get_json = json_of;
  try_get_text = λ row column. text_of row;
  try_get_integer = λ row column. size_of row;
  try_get_bytea = λ row column. bytes_of row;
  get_bigint = λ row column. number_of row;
}
