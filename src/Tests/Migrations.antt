-- ===== src/Tests/Migrations.antt =====
-- The theorems on the migrations of src/data_source/sql.rs, applied to migrations that are pairs of a
-- version and a number.
use hotshot_query_service.Prelude.{ℕ, some, List, [], ◌∷◌, leb, ok, err, ◌≡◌, ◌⊎◌, refl, arith, map}
use mathlib.Core.List.{Perm}
use Prim.Native.Nat.{Ordering}
use hotshot_query_service.Sql.Migrations.{
  Refinery, RefineryLaws, EitherOrBoth, left, right, both, Itertools, ItertoolsLaws,
  validate_migrations, add_custom_migrations,
}
use hotshot_query_service.Sql.Migrations.Merging.{
  IsIncreasing, IsAbove, find_version, preferred, add_custom_migrations_lem,
}
use hotshot_query_service.Sql.Migrations.Sorting.{FirstClash, validate_migrations_lem}

abbrev pairs : Refinery
pairs = record { Migration = ℕ × ℕ; version = λ m. m.0; le = λ m n. leb m.0 n.0 }

abbrev pairs_laws : RefineryLaws pairs
pairs_laws = record { le-version = λ m n. refl }

abbrev merge : {A : Type 0} → (A → A → Ordering) → List A → List A → List (EitherOrBoth A)
merge cmp [] ys = map right ys
merge cmp (x ∷ xs) [] = left x ∷ map left xs
merge cmp (x ∷ xs) (y ∷ ys) = elim (cmp x y) [
  | Ordering.lt ↦ left x ∷ merge cmp xs (y ∷ ys)
  | Ordering.eq ↦ both x y ∷ merge cmp xs ys
  | Ordering.gt ↦ right y ∷ merge cmp (x ∷ xs) ys
]

abbrev reduce : {A : Type 0} → EitherOrBoth A → (A → A → A) → A
reduce (left a) f = a
reduce (right a) f = a
reduce (both a b) f = f a b

abbrev merging : Itertools
merging = record { merge_join_by = merge; reduce = reduce }

merge-nil_right :
    {A : Type 0} (cmp : A → A → Ordering) (xs : List A) → merge cmp xs [] ≡ map left xs
merge-nil_right cmp [] = refl
merge-nil_right cmp (x ∷ xs) = refl

module _ {A : Type 0} (cmp : A → A → Ordering) (x y : A) (xs ys : List A) where
  merge-lt : cmp x y ≡ Ordering.lt → merge cmp (x ∷ xs) (y ∷ ys) ≡ left x ∷ merge cmp xs (y ∷ ys)
  merge-lt e = ground (arith, e)

  merge-gt : cmp x y ≡ Ordering.gt → merge cmp (x ∷ xs) (y ∷ ys) ≡ right y ∷ merge cmp (x ∷ xs) ys
  merge-gt e = ground (arith, e)

  merge-eq : cmp x y ≡ Ordering.eq → merge cmp (x ∷ xs) (y ∷ ys) ≡ both x y ∷ merge cmp xs ys
  merge-eq e = ground (arith, e)

abbrev merging_laws : ItertoolsLaws merging
merging_laws = record {
  merge-nil_left = λ cmp ys. refl;
  merge-nil_right = merge-nil_right;
  merge-lt = merge-lt;
  merge-gt = merge-gt;
  merge-eq = merge-eq;
  reduce-left = λ a f. refl;
  reduce-right = λ a f. refl;
  reduce-both = λ a b f. refl;
}

abbrev defaults : List (ℕ × ℕ)
defaults = (10, 1) ∷ (20, 2) ∷ []

abbrev customs : List (ℕ × ℕ)
customs = (15, 3) ∷ (20, 4) ∷ []

add_custom_migrations_lem_example :
    IsIncreasing pairs (add_custom_migrations pairs merging defaults customs)
    × (find_version pairs 20 (add_custom_migrations pairs merging defaults customs) ≡ some (20, 4))
unfolding find_version preferred IsIncreasing IsAbove
add_custom_migrations_lem_example =
    add_custom_migrations_lem pairs merging merging_laws defaults customs 20
      ((omega arith, tt), (tt, tt)) ((omega arith, tt), (tt, tt))

abbrev clashing : List (ℕ × ℕ)
clashing = (20, 1) ∷ (10, 2) ∷ (20, 3) ∷ []

validate_migrations_lem_example :
    Perm (validate_migrations pairs clashing).0 clashing
    × (((validate_migrations pairs clashing).1 ≡ ok tt)
          × IsIncreasing pairs (validate_migrations pairs clashing).0
        ⊎ ((prev : ℕ × ℕ) × (next : ℕ × ℕ) × ((validate_migrations pairs clashing).1
              ≡ err (prev, next))
            × FirstClash pairs pairs_laws (validate_migrations pairs clashing).0 prev next))
validate_migrations_lem_example = validate_migrations_lem pairs pairs_laws clashing
