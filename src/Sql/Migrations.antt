-- ===== src/Sql/Migrations.antt =====
-- The sequence of migrations of src/data_source/sql.rs: `validate_migrations`,
-- `add_custom_migrations` and `default_migrations`.
pub mod Sorting
pub mod Merging
use hotshot_query_service.Prelude.{
  ℕ, List, [], ◌∷◌, map, drop, zip, Bool, leb, ◌==◌, ◌||◌, ◌%◌, not, if◌then◌else◌, Result, ok, err,
  Fault, error, panic, ◌≡◌, true, false,
}
use Prim.Native.Nat.{compare, Ordering}
use Prim.Native.Nat.Ordering.{lt, eq, gt}

-- `Migration` of the crate refinery, and its `<=`.
pub record Refinery : Type 1 where
  pub Migration : Type 0
  pub version : Migration → ℕ
  pub le : Migration → Migration → Bool

-- Migrations are ordered by version.
pub record RefineryLaws (R : Refinery) : Type 0 where
  pub le-version : (a b : R.Migration) → R.le a b ≡ leb (R.version a) (R.version b)

-- `EitherOrBoth` of the crate itertools
pub data EitherOrBoth (A : Type 0) : Type 0 where
  left : A → EitherOrBoth A
  right : A → EitherOrBoth A
  both : A → A → EitherOrBoth A

pub record Itertools : Type 1 where
  pub merge_join_by : {A : Type 0} → (A → A → Ordering) → List A → List A → List (EitherOrBoth A)
  pub reduce : {A : Type 0} → EitherOrBoth A → (A → A → A) → A

-- The merge takes the lesser of the two first items, or both where they are equal.
pub record ItertoolsLaws (I : Itertools) : Type 1 where
  pub merge-nil_left :
      {A : Type 0} (cmp : A → A → Ordering) (ys : List A) → I.merge_join_by cmp [] ys ≡ map right ys
  pub merge-nil_right :
      {A : Type 0} (cmp : A → A → Ordering) (xs : List A) → I.merge_join_by cmp xs [] ≡ map left xs
  pub merge-lt :
      {A : Type 0} (cmp : A → A → Ordering) (x y : A) (xs ys : List A)
      → cmp x y ≡ lt
      → I.merge_join_by cmp (x ∷ xs) (y ∷ ys) ≡ left x ∷ I.merge_join_by cmp xs (y ∷ ys)
  pub merge-gt :
      {A : Type 0} (cmp : A → A → Ordering) (x y : A) (xs ys : List A)
      → cmp x y ≡ gt
      → I.merge_join_by cmp (x ∷ xs) (y ∷ ys) ≡ right y ∷ I.merge_join_by cmp (x ∷ xs) ys
  pub merge-eq :
      {A : Type 0} (cmp : A → A → Ordering) (x y : A) (xs ys : List A)
      → cmp x y ≡ eq
      → I.merge_join_by cmp (x ∷ xs) (y ∷ ys) ≡ both x y ∷ I.merge_join_by cmp xs ys
  pub reduce-left : {A : Type 0} (a : A) (f : A → A → A) → I.reduce (left a) f ≡ a
  pub reduce-right : {A : Type 0} (a : A) (f : A → A → A) → I.reduce (right a) f ≡ a
  pub reduce-both : {A : Type 0} (a b : A) (f : A → A → A) → I.reduce (both a b) f ≡ f a b

-- `sort_by_key`, which is stable.
unfoldable pub insert_by_key : {A : Type 0} → (A → ℕ) → A → List A → List A
insert_by_key key x [] = x ∷ []
insert_by_key key x (y ∷ ys) =
    let rest = insert_by_key key x ys in if leb (key x) (key y) then x ∷ y ∷ ys else y ∷ rest

unfoldable pub sort_by_key : {A : Type 0} → (A → ℕ) → List A → List A
unfolding insert_by_key
sort_by_key key [] = []
sort_by_key key (x ∷ xs) = insert_by_key key x (sort_by_key key xs)

module _ (R : Refinery) where
  -- The loop of `validate_migrations`. The error is the two migrations that are out of order.
  unfoldable pub check_order :
      List (R.Migration × R.Migration) → Result (R.Migration × R.Migration) (Unit {0})
  check_order [] = ok tt
  check_order ((prev, next) ∷ pairs) =
      let rest = check_order pairs in if R.le next prev then err (prev, next) else rest

  -- The sorted migrations, beside the result.
  unfoldable pub validate_migrations :
      List R.Migration → List R.Migration × Result (R.Migration × R.Migration) (Unit {0})
  unfolding sort_by_key check_order
  validate_migrations migrations =
      let sorted = sort_by_key R.version migrations in
      (sorted, check_order (zip sorted (drop 1 sorted)))

  unfoldable pub add_custom_migrations :
      Itertools → List R.Migration → List R.Migration → List R.Migration
  add_custom_migrations I default custom =
      map (λ pair. I.reduce pair (λ _ c. c))
        (I.merge_join_by (λ l r. compare (R.version l) (R.version r)) default custom)

  -- The loop of `default_migrations`.
  unfoldable pub all_multiples : List R.Migration → Bool
  all_multiples [] = true
  all_multiples (m ∷ ms) =
      let rest = all_multiples ms in
      if (R.version m == 0) || not (R.version m % 10 == 0) then false else rest

  -- The argument is the migrations that are embedded in the program.
  unfoldable pub default_migrations :
      {E : Type 0} → List R.Migration → Result (Fault E) (List R.Migration)
  unfolding validate_migrations all_multiples
  default_migrations embedded = elim (validate_migrations embedded).1 [
    | err e ↦ err panic
    | ok _ ↦
        let migrations = (validate_migrations embedded).0 in
        if all_multiples migrations then ok migrations else err panic
  ]
