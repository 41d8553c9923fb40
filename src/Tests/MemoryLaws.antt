-- ===== src/Tests/MemoryLaws.antt =====
-- The client in memory keeps what Postgres documents.
use hotshot_query_service.Prelude.{
  ℕ, Option, none, some, List, [], ◌∷◌, ◌++◌, map, length, true, false, ◌≤◌, Result, ok, err,
  map_option, ok-injective, Bool-cases, Option-cases, ◌≡◌, refl, sym, ap, ◌∙◌, inl, inr, arith,
}
use Prim.Native.String.{String}
use hotshot_query_service.Availability.Payload.{find}
use hotshot_query_service.AppendLog.{IsOk}
use hotshot_query_service.Metrics.Values.{ℤ}
use hotshot_query_service.Sql.Client.{Param, bigint, text, json, bytea, integer}
use hotshot_query_service.Sql.Tables.{
  TransactionRow, Tables, find_block, find_header, find_payload, find_leaf, HeaderRow, PayloadRow,
}
use hotshot_query_service.Sql.Clauses.{
  Comparison, ge, gt, le, lt, clause_text, all_hold, keep, by_height,
}
use hotshot_query_service.Sql.Queries.{leaf_range_query, block_query}
use hotshot_query_service.Sql.Postgres.{PostgresLaws, row_params}
use hotshot_query_service.Tests.Memory.{
  State, Answer, leaf_answer, block_answer, memory_client, effect, read_rows, read_clause, integers,
  run_statement, answer_one, answer_all, answer_range, unless_found,
}

read_rows-row_params : (rows : List (TransactionRow ℕ ℕ)) → read_rows (row_params rows) ≡ some rows
unfolding row_params
read_rows-row_params [] = refl
read_rows-row_params (r ∷ rows) =
    ap (map_option (λ (rs : List (TransactionRow ℕ ℕ)). r ∷ rs)) (read_rows-row_params rows)

integers-map : (ns : List ℤ) → integers (map bigint ns) ≡ some ns
integers-map [] = refl
integers-map (n ∷ ns) = ap (map_option (λ (ms : List ℤ). n ∷ ms)) (integers-map ns)

-- A statement that has an effect has it, in a transaction that has not failed.
ran :
    (s : State) (params : List (Param ℕ ℕ)) (t : Option (Tables ℕ ℕ))
    → effect s.tables params ≡ t
    → IsOk (run_statement s params).1
    → (t' : Tables ℕ ℕ) × (t ≡ some t')
      × ((run_statement s params).0 ≡ record s { tables = t' })
      × (s.failed ≡ false)
ran s params t e good = elim (Bool-cases s.failed) [
  | inl f ↦ absurd (ground (arith, f))
  | inr f ↦ elim (Option-cases t) [
    | inl g ↦ absurd (ground (arith, e, f, g))
    | inr (t', g) ↦ (t', g, ground (arith, e, f, g), f)
  ]
]

pub some-injective : {A : Type 0} {x y : A} → ◌≡◌ {A = Option A} (some x) (some y) → x ≡ y
some-injective e = cc

-- A statement whose effect is known has it, in a transaction that has not failed.
pub took_effect :
    (s : State) (params : List (Param ℕ ℕ)) (t : Tables ℕ ℕ)
    → effect s.tables params ≡ some t
    → IsOk (run_statement s params).1
    → ((run_statement s params).0 ≡ record s { tables = t }) × (s.failed ≡ false)
took_effect s params t e good =
    let (t', g, at, f) = ran s params (some t) e good in
    (at ∙ ap (λ x. record s { tables = x }) (sym (some-injective g)), f)

-- A row is added where none was found.
pub added :
    {A : Type 0} (s : State) (params : List (Param ℕ ℕ)) (found : Option A) (t : Tables ℕ ℕ)
    → effect s.tables params ≡ unless_found found t
    → IsOk (run_statement s params).1
    → ((run_statement s params).0 ≡ record s { tables = t }) × (s.failed ≡ false) × (found ≡ none)
added s params none t e good = let (at, f) = took_effect s params t e good in (at, f, refl)
added s params (some r) t e good =
    let (t', g, at, f) = ran s params none e good in absurd (ground (arith, g))

pub durable :
    (s : State) (stmt : String) (params : List (Param ℕ ℕ))
    → s.in_transaction ≡ true
    → ((run_statement s params).0.durable ≡ s.durable)
      × ((run_statement s params).0.in_transaction ≡ true)
durable s stmt params e = elim (Bool-cases s.failed) [
  | inl f ↦ (ground (arith, f), ground (arith, e, f))
  | inr f ↦ elim (Option-cases (effect s.tables params)) [
    | inl g ↦ (ground (arith, f, g), ground (arith, e, f, g))
    | inr (t, g) ↦ (ground (arith, f, g), ground (arith, e, f, g))
  ]
]

read_clause-clause_text :
    (cs : List Comparison) (params : List ℤ)
    → length params ≡ length cs
    → length cs ≤ 2
    → read_clause (leaf_range_query (clause_text "height" cs)) params ≡ some cs
unfolding clause_text leaf_range_query find
read_clause-clause_text [] [] same few = refl
read_clause-clause_text (ge ∷ []) (m ∷ []) same few = refl
read_clause-clause_text (gt ∷ []) (m ∷ []) same few = refl
read_clause-clause_text (le ∷ []) (m ∷ []) same few = refl
read_clause-clause_text (lt ∷ []) (m ∷ []) same few = refl
read_clause-clause_text (ge ∷ ge ∷ []) (m ∷ n ∷ []) same few = refl
read_clause-clause_text (ge ∷ gt ∷ []) (m ∷ n ∷ []) same few = refl
read_clause-clause_text (ge ∷ le ∷ []) (m ∷ n ∷ []) same few = refl
read_clause-clause_text (ge ∷ lt ∷ []) (m ∷ n ∷ []) same few = refl
read_clause-clause_text (gt ∷ ge ∷ []) (m ∷ n ∷ []) same few = refl
read_clause-clause_text (gt ∷ gt ∷ []) (m ∷ n ∷ []) same few = refl
read_clause-clause_text (gt ∷ le ∷ []) (m ∷ n ∷ []) same few = refl
read_clause-clause_text (gt ∷ lt ∷ []) (m ∷ n ∷ []) same few = refl
read_clause-clause_text (le ∷ ge ∷ []) (m ∷ n ∷ []) same few = refl
read_clause-clause_text (le ∷ gt ∷ []) (m ∷ n ∷ []) same few = refl
read_clause-clause_text (le ∷ le ∷ []) (m ∷ n ∷ []) same few = refl
read_clause-clause_text (le ∷ lt ∷ []) (m ∷ n ∷ []) same few = refl
read_clause-clause_text (lt ∷ ge ∷ []) (m ∷ n ∷ []) same few = refl
read_clause-clause_text (lt ∷ gt ∷ []) (m ∷ n ∷ []) same few = refl
read_clause-clause_text (lt ∷ le ∷ []) (m ∷ n ∷ []) same few = refl
read_clause-clause_text (lt ∷ lt ∷ []) (m ∷ n ∷ []) same few = refl
read_clause-clause_text [] (m ∷ params) same few = absurd (omega (arith, same))
read_clause-clause_text (c ∷ cs) [] same few = absurd (omega (arith, same))
read_clause-clause_text (c ∷ []) (m ∷ n ∷ params) same few = absurd (omega (arith, same))
read_clause-clause_text (c ∷ d ∷ cs) (m ∷ []) same few = absurd (omega (arith, same))
read_clause-clause_text (c ∷ d ∷ []) (m ∷ n ∷ o ∷ params) same few = absurd (omega (arith, same))
read_clause-clause_text (c ∷ d ∷ e ∷ cs) params same few = absurd (omega (arith, few))

pub transactions_added :
    (s : State) (r : TransactionRow ℕ ℕ) (rows : List (TransactionRow ℕ ℕ))
    → IsOk (run_statement s (row_params (r ∷ rows))).1
    → ((run_statement s (row_params (r ∷ rows))).0 ≡ record s {
      tables = record s.tables { transaction = s.tables.transaction ++ (r ∷ rows) };
    })
      × (s.failed ≡ false)
unfolding row_params
transactions_added s r rows good =
    took_effect s (row_params (r ∷ rows))
      (record s.tables { transaction = s.tables.transaction ++ (r ∷ rows) })
      (ap
        (map_option (λ (rs : List (TransactionRow ℕ ℕ)). record s.tables {
          transaction = s.tables.transaction ++ rs;
        }))
        (read_rows-row_params (r ∷ rows)))
      good

pub range_answered :
    (s : State) (cs : List Comparison) (params : List ℤ) (rows : List (Result String Answer))
    → length params ≡ length cs
    → length cs ≤ 2
    → answer_all s (leaf_range_query (clause_text "height" cs)) (map bigint params) ≡ ok rows
    → rows
      ≡ map
          (λ r. ok (leaf_answer r))
          (by_height (keep (λ r. all_hold params cs r.height) s.tables.leaf))
range_answered s cs params rows same few e =
    let stmt = leaf_range_query (clause_text "height" cs) in
    let at : answer_all s stmt (map bigint params)
        ≡ answer_range s params (read_clause stmt params) =
      rw (answer_all, integers-map params) in
    ok-injective
      (sym e ∙ at ∙ ap (answer_range s params) (read_clause-clause_text cs params same few))

pub block_answered :
    (s : State) (h : ℤ) (found : Option Answer)
    → answer_one s (block_query "h.height = $1") (bigint h ∷ []) ≡ ok found
    → found
      ≡ map_option
          (λ (b : HeaderRow ℕ ℕ × PayloadRow). block_answer b.0 b.1)
          (find_block h s.tables)
unfolding block_query
block_answered s h found e = sym (ok-injective e)

pub never_fails :
    {A : Type 0} (s : State) (e : String) → ◌≡◌ {A = Result String (Unit {0})} (ok tt) (err e) → A
never_fails s e bad = absurd (ground (arith, bad))

abbrev pub memory_postgres : PostgresLaws memory_client
memory_postgres = record {
  session = λ s. s;
  leaf_row = leaf_answer;
  block_row = block_answer;
  begin-ok = λ s good. refl;
  begin-err = λ s e bad. never_fails s e bad;
  commit-ok = λ s good. refl;
  rollback-ok = λ s good. refl;
  execute-durable = λ s stmt params change open_. durable s stmt params open_;
  insert_header = λ s h k j open_ good.
      added s (bigint h ∷ text k ∷ json j ∷ []) (find_header h s.tables.header) _ refl good;
  insert_payload =
      λ s h open_ good. added s (bigint h ∷ []) (find_payload h s.tables.payload) _ refl good;
  insert_leaf = λ s h k p b l q open_ good.
      added s (bigint h ∷ text k ∷ text p ∷ text b ∷ json l ∷ json q ∷ [])
        (find_leaf h s.tables.leaf) _ refl good;
  update_payload = λ s bytes size h open_ good.
      took_effect s (bytea bytes ∷ integer size ∷ bigint h ∷ []) _ refl good;
  insert_transaction = λ s r rows open_ good. transactions_added s r rows good;
  select_leaf = λ s h found e. sym (ok-injective e);
  select_block = block_answered;
  select_leaves = range_answered;
  leaf_row-leaf = λ r. refl;
  leaf_row-qc = λ r. refl;
  block_row-hash = λ h p. refl;
  block_row-data = λ h p. refl;
  block_row-size = λ h p. refl;
  block_row-bytes = λ h p. refl;
}
