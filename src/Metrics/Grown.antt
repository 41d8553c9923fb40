-- ===== src/Metrics/Grown.antt =====
-- A list of groups in which one group is changed and one is added.
use hotshot_query_service.Prelude.{
  ℕ, some, List, [], ◌∷◌, ◌++◌, length, get_elem?, set, ◌≡◌, ◌≢◌, refl, ap, ◌∙◌, arith, ◌<◌, zero,
  suc, length-set, get_elem?-append_left, get_elem?-append_right,
}

module _ {A : Type 0} where
  pub get_elem?-lt : (xs : List A) (i : ℕ) (x : A) → get_elem? xs i ≡ some x → i < length xs
  get_elem?-lt [] i x e = absurd (ground arith)
  get_elem?-lt (y ∷ xs) zero x e = omega arith
  get_elem?-lt (y ∷ xs) (suc i) x e = omega (arith, get_elem?-lt xs i x e)

  pub get_elem?-set_same :
      (xs : List A) (i : ℕ) (v : A) → i < length xs → get_elem? (set xs i v) i ≡ some v
  get_elem?-set_same [] i v h = absurd (omega arith)
  get_elem?-set_same (x ∷ xs) zero v h = refl
  get_elem?-set_same (x ∷ xs) (suc i) v h = get_elem?-set_same xs i v (omega arith)

  pub get_elem?-set_other :
      (xs : List A) (i j : ℕ) (v : A) → i ≢ j → get_elem? (set xs i v) j ≡ get_elem? xs j
  get_elem?-set_other [] i j v n = refl
  get_elem?-set_other (x ∷ xs) zero zero v n = absurd (n refl)
  get_elem?-set_other (x ∷ xs) zero (suc j) v n = refl
  get_elem?-set_other (x ∷ xs) (suc i) zero v n = refl
  get_elem?-set_other (x ∷ xs) (suc i) (suc j) v n =
      get_elem?-set_other xs i j v (λ e. n (ap suc e))

  -- A list in which one element is changed and one is added.
  abbrev pub grown : List A → ℕ → A → A → List A
  grown xs i v w = set xs i v ++ (w ∷ [])

  pub grown_same :
      (xs : List A) (i : ℕ) (v w : A) → i < length xs → get_elem? (grown xs i v w) i ≡ some v
  grown_same xs i v w h =
      get_elem?-append_left (set xs i v) (w ∷ []) i (rw (length-set xs i v) h)
      ∙ get_elem?-set_same xs i v h

  pub grown_last : (xs : List A) (i : ℕ) (v w : A) → get_elem? (grown xs i v w) (length xs) ≡ some w
  grown_last xs i v w =
      get_elem?-append_right (set xs i v) (w ∷ []) (length xs) 0 (omega (arith, length-set xs i v))

  pub grown_other :
      (xs : List A) (i : ℕ) (v w : A) (j : ℕ)
      → i ≢ j
      → j < length xs
      → get_elem? (grown xs i v w) j ≡ get_elem? xs j
  grown_other xs i v w j n h =
      get_elem?-append_left (set xs i v) (w ∷ []) j (rw (length-set xs i v) h)
      ∙ get_elem?-set_other xs i j v n
