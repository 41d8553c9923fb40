-- ===== src/Sql/Clauses.antt =====
-- The clauses of a query of Postgres by which src/data_source/sql.rs selects rows: comparisons of a
-- column with numbered parameters, and an order.
use hotshot_query_service.Prelude.{List, [], ◌∷◌, Bool, true, false, if◌then◌else◌, leb, not, ◌&&◌}
use Prim.Native.String.{String, ◌++◌ as append}
use hotshot_query_service.Metrics.Values.{ℤ, pos, negsuc}
use hotshot_query_service.Sql.Tables.{LeafRow}

unfoldable pub le_int : ℤ → ℤ → Bool
le_int (pos m) (pos n) = leb m n
le_int (negsuc m) (negsuc n) = leb n m
le_int (pos m) (negsuc n) = false
le_int (negsuc m) (pos n) = true

-- How a column is compared with a parameter.
pub data Comparison : Type 0 where
  ge : Comparison
  gt : Comparison
  le : Comparison
  lt : Comparison

unfoldable pub comparison_text : Comparison → String
comparison_text ge = " >= "
comparison_text gt = " > "
comparison_text le = " <= "
comparison_text lt = " < "

-- A clause of none, one or two comparisons with the parameters in their order.
unfoldable pub clause_text : String → List Comparison → String
unfolding comparison_text
clause_text column [] = ""
clause_text column (c ∷ []) = append " WHERE " (append column (append (comparison_text c) "$1"))
clause_text column (c ∷ d ∷ cs) = append " WHERE " (
    append column (
      append (comparison_text c)
        (append "$1 AND " (append column (append (comparison_text d) "$2")))))

unfoldable pub holds : Comparison → ℤ → ℤ → Bool
unfolding le_int
holds ge h n = le_int n h
holds gt h n = not (le_int h n)
holds le h n = le_int h n
holds lt h n = not (le_int n h)

-- All the comparisons hold of a value, each with its parameter.
unfoldable pub all_hold : List ℤ → List Comparison → ℤ → Bool
unfolding holds
all_hold params [] h = true
all_hold [] (c ∷ cs) h = false
all_hold (n ∷ params) (c ∷ cs) h = holds c h n && all_hold params cs h

unfoldable pub keep : {A : Type 0} → (A → Bool) → List A → List A
keep p [] = []
keep p (x ∷ xs) = let rest = keep p xs in if p x then x ∷ rest else rest

module _ {J T : Type 0} where
  unfoldable pub insert_row : LeafRow J T → List (LeafRow J T) → List (LeafRow J T)
  unfolding le_int
  insert_row r [] = r ∷ []
  insert_row r (s ∷ rows) =
      let rest = insert_row r rows in if le_int r.height s.height then r ∷ s ∷ rows else s ∷ rest

  -- `ORDER BY height ASC`
  unfoldable pub by_height : List (LeafRow J T) → List (LeafRow J T)
  unfolding insert_row
  by_height [] = []
  by_height (r ∷ rows) = insert_row r (by_height rows)
