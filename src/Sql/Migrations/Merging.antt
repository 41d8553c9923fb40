-- ===== src/Sql/Migrations/Merging.antt =====
-- `add_custom_migrations` of src/data_source/sql.rs.
use hotshot_query_service.Prelude.{
  ℕ, zero, suc, ◌+◌, ◌≤◌, ◌<◌, Option, none, some, List, [], ◌∷◌, map, length, ◌==◌, if◌then◌else◌,
  inl, inr, ◌≡◌, refl, ap, ◌∙◌, arith, ◌⊎◌, ap₂,
}
use Prim.Native.Nat.{compare, Ordering}
use Prim.Native.Nat.Ordering.{lt, eq, gt}
use hotshot_query_service.Sql.Migrations.{
  Refinery, Itertools, ItertoolsLaws, left, right, add_custom_migrations,
}

map_back :
    {A B : Type 0} (g : B → A) (f : A → B)
    → ((a : A) → g (f a) ≡ a)
    → (xs : List A) → map g (map f xs) ≡ xs
map_back g f e [] = refl
map_back g f e (x ∷ xs) = ap₂ (λ y ys. y ∷ ys) (e x) (map_back g f e xs)

-- The three ways in which two numbers compare.
compare-cases :
    (m n : ℕ)
    → ((compare m n ≡ lt) × (m < n))
      ⊎ (((compare m n ≡ gt) × (n < m)) ⊎ ((compare m n ≡ eq) × (m ≡ n)))
compare-cases m n = split (compare m n) refl
  where
    split :
        (o : Ordering)
        → compare m n ≡ o
        → ((compare m n ≡ lt) × (m < n))
          ⊎ (((compare m n ≡ gt) × (n < m)) ⊎ ((compare m n ≡ eq) × (m ≡ n)))
    split lt e = inl (e, ground arith)
    split gt e = inr (inl (e, ground arith))
    split eq e = inr (inr (e, ground arith))

module _ (R : Refinery) where
  -- Every version is greater than `v`.
  unfoldable pub IsAbove : ℕ → List R.Migration → Type 0
  IsAbove v [] = Unit
  IsAbove v (m ∷ ms) = (v < R.version m) × IsAbove v ms

  -- Versions are strictly increasing.
  unfoldable pub IsIncreasing : List R.Migration → Type 0
  unfolding IsAbove
  IsIncreasing [] = Unit
  IsIncreasing (m ∷ ms) = IsAbove (R.version m) ms × IsIncreasing ms

  -- The first migration of a version.
  unfoldable pub find_version : ℕ → List R.Migration → Option R.Migration
  find_version v [] = none
  find_version v (m ∷ ms) =
      let rest = find_version v ms in if R.version m == v then some m else rest

  -- The custom migration where there is one, else the default one.
  unfoldable pub preferred : Option R.Migration → Option R.Migration → Option R.Migration
  preferred default none = default
  preferred default (some m) = some m

  preferred-none : (o : Option R.Migration) → o ≡ preferred none o
  unfolding preferred
  preferred-none none = refl
  preferred-none (some m) = refl

  IsAbove-trans : (v w : ℕ) (ms : List R.Migration) → v ≤ w → IsAbove w ms → IsAbove v ms
  unfolding IsAbove
  IsAbove-trans v w [] h a = tt
  IsAbove-trans v w (m ∷ ms) h (p, a) = (omega arith, IsAbove-trans v w ms h a)

  find_version-IsAbove : (v : ℕ) (ms : List R.Migration) → IsAbove v ms → find_version v ms ≡ none
  unfolding IsAbove find_version
  find_version-IsAbove v [] a = refl
  find_version-IsAbove v (m ∷ ms) (p, a) = ground (arith, find_version-IsAbove v ms a)

  module _ (I : Itertools) (laws : ItertoolsLaws I) where
    abbrev merged : List R.Migration → List R.Migration → List R.Migration
    merged xs ys = add_custom_migrations R I xs ys

    merged-nil_left : (ys : List R.Migration) → merged [] ys ≡ ys
    unfolding add_custom_migrations
    merged-nil_left ys =
        ap (map (λ p. I.reduce p (λ _ c. c)))
          (laws.merge-nil_left (λ l r. compare (R.version l) (R.version r)) ys)
        ∙ map_back (λ p. I.reduce p (λ _ c. c)) right (λ a. laws.reduce-right a (λ _ c. c)) ys

    merged-nil_right : (xs : List R.Migration) → merged xs [] ≡ xs
    unfolding add_custom_migrations
    merged-nil_right xs =
        ap (map (λ p. I.reduce p (λ _ c. c)))
          (laws.merge-nil_right (λ l r. compare (R.version l) (R.version r)) xs)
        ∙ map_back (λ p. I.reduce p (λ _ c. c)) left (λ a. laws.reduce-left a (λ _ c. c)) xs

    module _ (x y : R.Migration) (xs ys : List R.Migration) where
      merged-lt :
          compare (R.version x) (R.version y) ≡ lt
          → merged (x ∷ xs) (y ∷ ys) ≡ x ∷ merged xs (y ∷ ys)
      unfolding add_custom_migrations
      merged-lt h =
          ap (map (λ p. I.reduce p (λ _ c. c)))
            (laws.merge-lt (λ l r. compare (R.version l) (R.version r)) x y xs ys h)
          ∙ ap (λ m. m ∷ merged xs (y ∷ ys)) (laws.reduce-left x (λ _ c. c))

      merged-gt :
          compare (R.version x) (R.version y) ≡ gt
          → merged (x ∷ xs) (y ∷ ys) ≡ y ∷ merged (x ∷ xs) ys
      unfolding add_custom_migrations
      merged-gt h =
          ap (map (λ p. I.reduce p (λ _ c. c)))
            (laws.merge-gt (λ l r. compare (R.version l) (R.version r)) x y xs ys h)
          ∙ ap (λ m. m ∷ merged (x ∷ xs) ys) (laws.reduce-right y (λ _ c. c))

      merged-eq :
          compare (R.version x) (R.version y) ≡ eq → merged (x ∷ xs) (y ∷ ys) ≡ y ∷ merged xs ys
      unfolding add_custom_migrations
      merged-eq h =
          ap (map (λ p. I.reduce p (λ _ c. c)))
            (laws.merge-eq (λ l r. compare (R.version l) (R.version r)) x y xs ys h)
          ∙ ap (λ m. m ∷ merged xs ys) (laws.reduce-both x y (λ _ c. c))

    merged-IsAbove :
        (fuel v : ℕ) (xs ys : List R.Migration)
        → length xs + length ys ≤ fuel
        → IsAbove v xs
        → IsAbove v ys
        → IsAbove v (merged xs ys)
    unfolding IsAbove
    merged-IsAbove fuel v [] ys h a b = rw (merged-nil_left ys) b
    merged-IsAbove fuel v (x ∷ xs) [] h a b = rw (merged-nil_right (x ∷ xs)) a
    merged-IsAbove zero v (x ∷ xs) (y ∷ ys) h a b = absurd (omega arith)
    merged-IsAbove (suc fuel) v (x ∷ xs) (y ∷ ys) h (p, a) (q, b) =
        elim (compare-cases (R.version x) (R.version y)) [
          | inl (e, _) ↦
              rw (merged-lt x y xs ys e)
                (p, merged-IsAbove fuel v xs (y ∷ ys) (omega arith) a (q, b))
          | inr (inl (e, _)) ↦
              rw (merged-gt x y xs ys e)
                (q, merged-IsAbove fuel v (x ∷ xs) ys (omega arith) (p, a) b)
          | inr (inr (e, _)) ↦
              rw (merged-eq x y xs ys e) (q, merged-IsAbove fuel v xs ys (omega arith) a b)
        ]

    -- Two increasing sequences merge to an increasing one.
    merged_increases :
        (fuel : ℕ) (xs ys : List R.Migration)
        → length xs + length ys ≤ fuel
        → IsIncreasing xs
        → IsIncreasing ys
        → IsIncreasing (merged xs ys)
    unfolding IsAbove IsIncreasing
    merged_increases fuel [] ys h a b = rw (merged-nil_left ys) b
    merged_increases fuel (x ∷ xs) [] h a b = rw (merged-nil_right (x ∷ xs)) a
    merged_increases zero (x ∷ xs) (y ∷ ys) h a b = absurd (omega arith)
    merged_increases (suc fuel) (x ∷ xs) (y ∷ ys) h (p, a) (q, b) =
        elim (compare-cases (R.version x) (R.version y)) [
          | inl (e, k) ↦ rw (merged-lt x y xs ys e) (
            merged-IsAbove fuel (R.version x) xs (y ∷ ys) (omega arith) p
                (k, IsAbove-trans (R.version x) (R.version y) ys (omega arith) q),
            merged_increases fuel xs (y ∷ ys) (omega arith) a (q, b),
          )
          | inr (inl (e, k)) ↦ rw (merged-gt x y xs ys e) (
            merged-IsAbove fuel (R.version y) (x ∷ xs) ys (omega arith)
                (k, IsAbove-trans (R.version y) (R.version x) xs (omega arith) p) q,
            merged_increases fuel (x ∷ xs) ys (omega arith) (p, a) b,
          )
          | inr (inr (e, k)) ↦ rw (merged-eq x y xs ys e) (
            merged-IsAbove fuel (R.version y) xs ys (omega arith)
                (IsAbove-trans (R.version y) (R.version x) xs (omega arith) p) q,
            merged_increases fuel xs ys (omega arith) a b,
          )
        ]

    merged_prefers :
        (fuel v : ℕ) (xs ys : List R.Migration)
        → length xs + length ys ≤ fuel
        → IsIncreasing xs
        → IsIncreasing ys
        → find_version v (merged xs ys) ≡ preferred (find_version v xs) (find_version v ys)
    unfolding IsAbove IsIncreasing find_version preferred
    merged_prefers fuel v [] ys h a b = rw (merged-nil_left ys) (preferred-none (find_version v ys))
    merged_prefers fuel v (x ∷ xs) [] h a b = rw (merged-nil_right (x ∷ xs)) refl
    merged_prefers zero v (x ∷ xs) (y ∷ ys) h a b = absurd (omega arith)
    merged_prefers (suc fuel) v (x ∷ xs) (y ∷ ys) h (p, a) (q, b) =
        elim (compare-cases (R.version x) (R.version y)) [
          | inl (e, k) ↦
              let later : R.version x ≡ v → find_version v (y ∷ ys) ≡ none = λ same.
                find_version-IsAbove v (y ∷ ys)
                  (omega (arith, k), IsAbove-trans v (R.version y) ys (omega (arith, k)) q) in
              let rest = merged_prefers fuel v xs (y ∷ ys) (omega arith) a (q, b) in
              rw (merged-lt x y xs ys e) (ground (arith, rest, later))
          | inr (inl (e, k)) ↦
              let rest = merged_prefers fuel v (x ∷ xs) ys (omega arith) (p, a) b in
              rw (merged-gt x y xs ys e) (ground (arith, rest))
          | inr (inr (e, k)) ↦
              let rest = merged_prefers fuel v xs ys (omega arith) a b in
              rw (merged-eq x y xs ys e) (ground (arith, rest, k))
        ]

    -- Two sequences of migrations with increasing versions are merged into one with increasing
    -- versions, in which each version has the custom migration if there is one, else the default
    -- one.
    pub add_custom_migrations_lem :
        (default custom : List R.Migration) (v : ℕ)
        → IsIncreasing default
        → IsIncreasing custom
        → IsIncreasing (add_custom_migrations R I default custom)
          × (find_version v (add_custom_migrations R I default custom)
              ≡ preferred (find_version v default) (find_version v custom))
    add_custom_migrations_lem default custom v a b =
        let fuel = length default + length custom in
        (
          merged_increases fuel default custom (omega arith) a b,
          merged_prefers fuel v default custom (omega arith) a b,
        )
