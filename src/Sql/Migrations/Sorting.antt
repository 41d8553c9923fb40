-- ===== src/Sql/Migrations/Sorting.antt =====
-- `validate_migrations` of src/data_source/sql.rs.
use hotshot_query_service.Prelude.{
  ℕ, ◌≤◌, ◌<◌, List, [], ◌∷◌, drop, zip, leb, Bool-cases, inl, inr, ◌⊎◌, Result, ok, err,
  Result-cases, ◌++◌, subst, ◌≡◌, sym, ap, ◌∙◌, arith, leb→le, leb-false→lt,
}
use mathlib.Core.List.{Perm}
use mathlib.Core.List.Perm
use hotshot_query_service.Sql.Migrations.{
  Refinery, RefineryLaws, insert_by_key, sort_by_key, check_order, validate_migrations,
}
use hotshot_query_service.Sql.Migrations.Merging.{IsAbove, IsIncreasing}

err-injective : {E A : Type 0} {x y : E} → ◌≡◌ {A = Result E A} (err x) (err y) → x ≡ y
err-injective e = cc

module _ (R : Refinery) (laws : RefineryLaws R) where
  -- No version is less than `v`.
  unfoldable pub IsAtLeast : ℕ → List R.Migration → Type 0
  IsAtLeast v [] = Unit
  IsAtLeast v (m ∷ ms) = (v ≤ R.version m) × IsAtLeast v ms

  unfoldable pub IsSorted : List R.Migration → Type 0
  unfolding IsAtLeast
  IsSorted [] = Unit
  IsSorted (m ∷ ms) = IsAtLeast (R.version m) ms × IsSorted ms

  insert_by_key-IsAtLeast :
      (v : ℕ) (m : R.Migration) (ms : List R.Migration)
      → v ≤ R.version m
      → IsAtLeast v ms
      → IsAtLeast v (insert_by_key R.version m ms)
  unfolding insert_by_key IsAtLeast
  insert_by_key-IsAtLeast v m [] h a = (h, tt)
  insert_by_key-IsAtLeast v m (x ∷ xs) h (p, a) =
      elim (Bool-cases (leb (R.version m) (R.version x))) [
        | inl e ↦ rw e (h, (p, a))
        | inr e ↦ rw e (p, insert_by_key-IsAtLeast v m xs h a)
      ]

  IsAtLeast-trans : (v w : ℕ) (ms : List R.Migration) → v ≤ w → IsAtLeast w ms → IsAtLeast v ms
  unfolding IsAtLeast
  IsAtLeast-trans v w [] h a = tt
  IsAtLeast-trans v w (m ∷ ms) h (p, a) = (omega arith, IsAtLeast-trans v w ms h a)

  insert_by_key-IsSorted :
      (m : R.Migration) (ms : List R.Migration)
      → IsSorted ms
      → IsSorted (insert_by_key R.version m ms)
  unfolding insert_by_key IsSorted IsAtLeast
  insert_by_key-IsSorted m [] a = (tt, tt)
  insert_by_key-IsSorted m (x ∷ xs) (p, a) = elim (Bool-cases (leb (R.version m) (R.version x))) [
    | inl h ↦ rw h ((leb→le _ _ h, IsAtLeast-trans _ _ xs (leb→le _ _ h) p), (p, a))
    | inr h ↦ rw h (
      insert_by_key-IsAtLeast (R.version x) m xs (omega (arith, leb-false→lt _ _ h)) p,
      insert_by_key-IsSorted m xs a,
    )
  ]

  sort_by_key-IsSorted : (ms : List R.Migration) → IsSorted (sort_by_key R.version ms)
  unfolding sort_by_key IsSorted
  sort_by_key-IsSorted [] = tt
  sort_by_key-IsSorted (m ∷ ms) =
      insert_by_key-IsSorted m (sort_by_key R.version ms) (sort_by_key-IsSorted ms)

  insert_by_key-Perm :
      (m : R.Migration) (ms : List R.Migration) → Perm (insert_by_key R.version m ms) (m ∷ ms)
  unfolding insert_by_key
  insert_by_key-Perm m [] = Perm.rfl
  insert_by_key-Perm m (x ∷ xs) = elim (Bool-cases (leb (R.version m) (R.version x))) [
    | inl h ↦ rw h Perm.rfl
    | inr h ↦ rw h (Perm.trans (Perm.cons x (insert_by_key-Perm m xs)) (Perm.swap m x xs))
  ]

  sort_by_key-Perm : (ms : List R.Migration) → Perm (sort_by_key R.version ms) ms
  unfolding sort_by_key
  sort_by_key-Perm [] = Perm.rfl
  sort_by_key-Perm (m ∷ ms) =
      Perm.trans (insert_by_key-Perm m (sort_by_key R.version ms))
        (Perm.cons m (sort_by_key-Perm ms))

  IsAtLeast-IsAbove : (v w : ℕ) (ms : List R.Migration) → v < w → IsAtLeast w ms → IsAbove R v ms
  unfolding IsAtLeast IsAbove
  IsAtLeast-IsAbove v w [] h a = tt
  IsAtLeast-IsAbove v w (m ∷ ms) h (p, a) = (omega arith, IsAtLeast-IsAbove v w ms h a)

  check_order_ok :
      (ms : List R.Migration)
      → IsSorted ms
      → check_order R (zip ms (drop 1 ms)) ≡ ok tt
      → IsIncreasing R ms
  unfolding check_order IsSorted IsIncreasing IsAtLeast IsAbove
  check_order_ok [] a e = tt
  check_order_ok (m ∷ []) a e = (tt, tt)
  check_order_ok (m ∷ n ∷ ms) ((p, q), a) e = elim (Bool-cases (R.le n m)) [
    | inl h ↦ absurd (ground (arith, h, e))
    | inr h ↦
        let less : R.version m < R.version n = leb-false→lt _ _ (sym (laws.le-version n m) ∙ h) in
        (
          (less, IsAtLeast-IsAbove (R.version m) (R.version n) ms less a.0),
          check_order_ok (n ∷ ms) a (rw h at e),
        )
  ]

  IsAbove-prefix :
      (v : ℕ) (before : List R.Migration) (m : R.Migration) (after : List R.Migration)
      → IsAbove R v (before ++ (m ∷ after))
      → IsAbove R v (before ++ (m ∷ []))
  unfolding IsAbove
  IsAbove-prefix v [] m after (p, a) = (p, tt)
  IsAbove-prefix v (x ∷ before) m after (p, a) = (p, IsAbove-prefix v before m after a)

  -- Two neighbours of one version, the first such in the list.
  abbrev pub FirstClash : List R.Migration → R.Migration → R.Migration → Type 0
  FirstClash ms prev next =
      (before : List R.Migration) × (after : List R.Migration) × (ms
        ≡ before ++ (prev ∷ next ∷ after))
      × (R.version prev ≡ R.version next)
      × IsIncreasing R (before ++ (prev ∷ []))

  check_order_err :
      (ms : List R.Migration) (prev next : R.Migration)
      → IsSorted ms
      → check_order R (zip ms (drop 1 ms)) ≡ err (prev, next)
      → FirstClash ms prev next
  unfolding check_order IsSorted IsAtLeast IsIncreasing IsAbove
  check_order_err [] prev next a e = absurd (ground arith)
  check_order_err (m ∷ []) prev next a e = absurd (ground arith)
  check_order_err (m ∷ n ∷ ms) prev next ((p, q), a) e = elim (Bool-cases (R.le n m)) [
    | inl h ↦
        let same = err-injective (rw h at e) in
        let less = leb→le _ _ (sym (laws.le-version n m) ∙ h) in
        let both_equal : R.version m ≡ R.version n = omega arith in
        (
          [],
          ms,
          ap (λ (r : R.Migration × R.Migration). r.0 ∷ r.1 ∷ ms) same,
          sym (ap (λ r. R.version r.0) same) ∙ both_equal ∙ ap (λ r. R.version r.1) same,
          (tt, tt),
        )
    | inr h ↦
        let less : R.version m < R.version n = leb-false→lt _ _ (sym (laws.le-version n m) ∙ h) in
        let (before, after, here, both_equal, grows) =
          check_order_err (n ∷ ms) prev next a (rw h at e) in
        let above : IsAbove R (R.version m) (n ∷ ms) =
          (less, IsAtLeast-IsAbove (R.version m) (R.version n) ms less a.0) in
        (
          m ∷ before,
          after,
          ap (λ (xs : List R.Migration). m ∷ xs) here,
          both_equal,
          (
            IsAbove-prefix (R.version m) before prev (next ∷ after)
                (subst (IsAbove R (R.version m)) here above),
            grows,
          ),
        )
  ]

  -- Validation reorders the migrations; then either it succeeds and the versions are strictly
  -- increasing, or it fails with two neighbours of the reordered list that have the same version,
  -- and up to the first of the two the versions are strictly increasing.
  pub validate_migrations_lem :
      (ms : List R.Migration)
      → Perm (validate_migrations R ms).0 ms
        × (((validate_migrations R ms).1 ≡ ok tt) × IsIncreasing R (validate_migrations R ms).0
            ⊎ ((prev : R.Migration) × (next : R.Migration) × ((validate_migrations R ms).1
                  ≡ err (prev, next))
                × FirstClash (validate_migrations R ms).0 prev next))
  unfolding validate_migrations
  validate_migrations_lem ms =
      let sorted = sort_by_key R.version ms in
      (
        sort_by_key-Perm ms,
        elim (Result-cases (check_order R (zip sorted (drop 1 sorted)))) [
          | inl (u, e) ↦ inl (e, check_order_ok sorted (sort_by_key-IsSorted ms) e)
          | inr ((prev, next), e) ↦
              inr (prev, next, e, check_order_err sorted prev next (sort_by_key-IsSorted ms) e)
        ],
      )
