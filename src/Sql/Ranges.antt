-- ===== src/Sql/Ranges.antt =====
-- The leaves that `get_leaf_range` of src/data_source/sql.rs selects: what the clause of
-- `bounds_to_where_clause` means.
use hotshot_query_service.Prelude.{
  ℕ, ◌<◌, ◌^◌, leb, ltb, ap₂, ◌≤◌, List, [], ◌∷◌, map, length, Bool, true, not, ◌&&◌, Result, ok,
  ◌>>=◌, map_err, map-map, fun_ext, ◌≡◌, refl, ap, ◌∙◌, arith,
}
use Prim.Native.String.{String}
use hotshot_query_service.NodeTypes.{NodeTypes}
use hotshot_query_service.Errors.{failure}
use hotshot_query_service.FileSystem.Range.{Bound, included, excluded, unbounded}
use hotshot_query_service.Metrics.Values.{ℤ, pos}
use hotshot_query_service.Sql.Client.{Client, Encodings, bigint, as_i64}
use hotshot_query_service.Sql.Tables.{LeafRow}
use hotshot_query_service.Sql.Clauses.{
  Comparison, ge, gt, le, lt, le_int, clause_text, all_hold, keep, by_height, holds,
}
use hotshot_query_service.Sql.Postgres.{PostgresLaws}
use hotshot_query_service.Sql.Sessions.{session_of}
use hotshot_query_service.Sql.Queries.{
  bounds_to_where_clause, get_leaf_range, leaf_range_query, parse_leaf, parse_item,
}
use hotshot_query_service.Sql.Defs.{SqlDataSource}

-- A height between two bounds, which are read as signed integers.
abbrev is_after : Bound → ℤ → Bool
is_after (included n) h = le_int (as_i64 n) h
is_after (excluded n) h = not (le_int h (as_i64 n))
is_after unbounded h = true

abbrev is_before : Bound → ℤ → Bool
is_before (included n) h = le_int h (as_i64 n)
is_before (excluded n) h = not (le_int (as_i64 n) h)
is_before unbounded h = true

unfoldable pub in_range : Bound → Bound → ℤ → Bool
in_range start end h = is_after start h && is_before end h

and_true : (a b : Bool) → (a && (b && true)) ≡ (a && b)
and_true a b = ground arith

-- The clause of a range is one of comparisons with its parameters, and they hold of the heights in the
-- range.
abbrev IsClause : Bound → Bound → List Comparison → Type 0
IsClause start end cs =
    ((bounds_to_where_clause start end "height").0 ≡ clause_text "height" cs)
    × (length (bounds_to_where_clause start end "height").1 ≡ length cs)
    × (length cs ≤ 2)
    × ((h : ℤ) → all_hold (bounds_to_where_clause start end "height").1 cs h ≡ in_range start end h)

bounds_to_where_clause_lem : (start end : Bound) → (cs : List Comparison) × IsClause start end cs
unfolding bounds_to_where_clause clause_text all_hold holds in_range
bounds_to_where_clause_lem (included m) (included n) =
    (ge ∷ le ∷ [], (refl, refl, omega arith, λ h. and_true _ _))
bounds_to_where_clause_lem (included m) (excluded n) =
    (ge ∷ lt ∷ [], (refl, refl, omega arith, λ h. and_true _ _))
bounds_to_where_clause_lem (included m) unbounded = (ge ∷ [], (refl, refl, omega arith, λ h. refl))
bounds_to_where_clause_lem (excluded m) (included n) =
    (gt ∷ le ∷ [], (refl, refl, omega arith, λ h. and_true _ _))
bounds_to_where_clause_lem (excluded m) (excluded n) =
    (gt ∷ lt ∷ [], (refl, refl, omega arith, λ h. and_true _ _))
bounds_to_where_clause_lem (excluded m) unbounded = (gt ∷ [], (refl, refl, omega arith, λ h. refl))
bounds_to_where_clause_lem unbounded (included n) =
    (le ∷ [], (refl, refl, omega arith, λ h. and_true true _))
bounds_to_where_clause_lem unbounded (excluded n) =
    (lt ∷ [], (refl, refl, omega arith, λ h. and_true true _))
bounds_to_where_clause_lem unbounded unbounded = ([], (refl, refl, omega arith, λ h. refl))

-- `RangeBounds::contains`
abbrev starts_before : Bound → ℕ → Bool
starts_before (included m) n = leb m n
starts_before (excluded m) n = ltb m n
starts_before unbounded n = true

abbrev ends_behind : Bound → ℕ → Bool
ends_behind (included m) n = leb n m
ends_behind (excluded m) n = ltb n m
ends_behind unbounded n = true

unfoldable pub contains : Bound → Bound → ℕ → Bool
contains start end n = starts_before start n && ends_behind end n

-- A bound that a signed integer can hold.
unfoldable pub IsSmall : Bound → Type 0
IsSmall (included n) = n < 2 ^ 63
IsSmall (excluded n) = n < 2 ^ 63
IsSmall unbounded = Unit

as_i64_small : (n : ℕ) → n < 2 ^ 63 → as_i64 n ≡ pos n
unfolding as_i64
as_i64_small n small = ground arith

le_int-as_i64 : (m n : ℕ) → m < 2 ^ 63 → n < 2 ^ 63 → le_int (as_i64 m) (as_i64 n) ≡ leb m n
unfolding le_int
le_int-as_i64 m n small small' = rw (as_i64_small m small, as_i64_small n small') refl

not-leb : (m n : ℕ) → not (leb m n) ≡ ltb n m
not-leb m n = ground arith

is_after-starts_before :
    (b : Bound) (n : ℕ) → IsSmall b → n < 2 ^ 63 → is_after b (as_i64 n) ≡ starts_before b n
unfolding IsSmall
is_after-starts_before (included m) n small here = le_int-as_i64 m n small here
is_after-starts_before (excluded m) n small here =
    ap not (le_int-as_i64 n m here small) ∙ not-leb n m
is_after-starts_before unbounded n small here = refl

is_before-ends_behind :
    (b : Bound) (n : ℕ) → IsSmall b → n < 2 ^ 63 → is_before b (as_i64 n) ≡ ends_behind b n
unfolding IsSmall
is_before-ends_behind (included m) n small here = le_int-as_i64 n m here small
is_before-ends_behind (excluded m) n small here =
    ap not (le_int-as_i64 m n small here) ∙ not-leb m n
is_before-ends_behind unbounded n small here = refl

in_range-contains :
    (start end : Bound) (n : ℕ)
    → IsSmall start
    → IsSmall end
    → n < 2 ^ 63
    → in_range start end (as_i64 n) ≡ contains start end n
unfolding in_range contains
in_range-contains start end n small small' here =
    ap₂ (λ a b. a && b) (is_after-starts_before start n small here)
      (is_before-ends_behind end n small' here)

-- For bounds and a height below 2^63, the clause of a range and its parameters are comparisons,
-- one parameter for each, that all hold of the height exactly where it is in the range.
pub bounds_to_where_clause-contains :
    (start end : Bound) (n : ℕ)
    → IsSmall start
    → IsSmall end
    → n < 2 ^ 63
    → (cs : List Comparison) × ((bounds_to_where_clause start end "height").0
        ≡ clause_text "height" cs)
      × (length (bounds_to_where_clause start end "height").1 ≡ length cs)
      × (all_hold (bounds_to_where_clause start end "height").1 cs (as_i64 n)
          ≡ contains start end n)
bounds_to_where_clause-contains start end n small small' here =
    let (cs, (text, same, _, means)) = bounds_to_where_clause_lem start end in
    (cs, text, same, means (as_i64 n) ∙ in_range-contains start end n small small' here)

module _ (N : NodeTypes) (C : Encodings N) (K : Client C.Json C.Text) (laws : PostgresLaws K) where
  -- A query for a range of leaves that succeeds yields the leaves of the rows that the client sees
  -- whose heights lie between the bounds, both read as signed integers, by increasing height.
  pub get_leaf_range-in_range :
      (ds : SqlDataSource N C K) (start end : Bound) (rows : List (Result String K.Row))
      → K.query_raw ds.client
          (leaf_range_query (bounds_to_where_clause start end "height").0)
          (map bigint (bounds_to_where_clause start end "height").1)
        ≡ ok rows
      → get_leaf_range N C K ds start end
        ≡ ok (
            map
              (λ r. parse_leaf N C K (laws.leaf_row r))
              (by_height
                (keep (λ r. in_range start end r.height) (session_of N C K laws ds).tables.leaf)))
  unfolding get_leaf_range
  get_leaf_range-in_range ds start end rows e =
      let (cs, (text, same, few, means)) = bounds_to_where_clause_lem start end in
      let params = (bounds_to_where_clause start end "height").1 in
      let leaves = (session_of N C K laws ds).tables.leaf in
      let selected : rows
          ≡ map (λ r. ok (laws.leaf_row r))
              (by_height (keep (λ r. all_hold params cs r.height) leaves)) =
        laws.select_leaves ds.client cs params rows same few (rw text at e) in
      let kept : keep (λ (r : LeafRow C.Json C.Text). all_hold params cs r.height) leaves
          ≡ keep (λ r. in_range start end r.height) leaves =
        ap (λ (p : LeafRow C.Json C.Text → Bool). keep p leaves) (fun_ext (λ r. means r.height)) in
      ap
        (λ (r : Result String (List (Result String K.Row))).
          map_err failure r >>= (λ found. ok (map (parse_item N C K (parse_leaf N C K)) found)))
        e
      ∙ ap (λ found. ok (map (parse_item N C K (parse_leaf N C K)) found)) selected
      ∙ ap ok (
          map-map (parse_item N C K (parse_leaf N C K)) (λ r. ok (laws.leaf_row r))
            (by_height (keep (λ r. all_hold params cs r.height) leaves)))
      ∙ ap (λ rs. ok (map (λ r. parse_leaf N C K (laws.leaf_row r)) (by_height rs))) kept
