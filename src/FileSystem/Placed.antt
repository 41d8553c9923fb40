-- ===== src/FileSystem/Placed.antt =====
-- Chains of leaves of src/data_source/fs.rs in which each leaf stands at its height.
use hotshot_query_service.Prelude.{
  ℕ, zero, suc, ◌+◌, ◌<◌, Option, none, some, List, [], ◌∷◌, ◌++◌, length, drop, ok, ◌≡◌, refl,
  subst, arith, append_assoc, length-append, get_elem?, get_elem?-append_right, replicate,
}
use hotshot_query_service.NodeTypes.{NodeTypes}
use hotshot_query_service.Availability.QueryData.{LeafQueryData, leaf_height}
use hotshot_query_service.FileSystem.Flatten.{somes}
use hotshot_query_service.FileSystem.Stored.{answer}

module _ (N : NodeTypes) where
  -- Each leaf of the chain stands at its height.
  abbrev pub Placed : ℕ → List (Option (LeafQueryData N)) → Type 0
  Placed n [] = Unit
  Placed n (none ∷ xs) = Placed (suc n) xs
  Placed n (some l ∷ xs) = (leaf_height N l ≡ n) × Placed (suc n) xs

  -- The chain has each of the leaves at its height.
  abbrev pub AllAt : List (Option (LeafQueryData N)) → List (LeafQueryData N) → Type 0
  AllAt xs [] = Unit
  AllAt xs (l ∷ ls) =
      (answer xs (leaf_height N l) ≡ ok l) × (leaf_height N l < length xs) × AllAt xs ls

  pub Placed-AllAt :
      (before xs : List (Option (LeafQueryData N)))
      → Placed (length before) xs
      → AllAt (before ++ xs) (somes xs)
  Placed-AllAt before [] p = tt
  Placed-AllAt before (none ∷ xs) p =
      subst (λ ys. AllAt ys (somes xs)) (append_assoc before (none ∷ []) xs)
        (Placed-AllAt (before ++ (none ∷ [])) xs
          (subst (λ n. Placed n xs) (omega (arith, length-append before (none ∷ []))) p))
  Placed-AllAt before (some l ∷ xs) (at, p) =
      let here : get_elem? (before ++ (some l ∷ xs)) (leaf_height N l) ≡ some (some l) =
        get_elem?-append_right before (some l ∷ xs) (leaf_height N l) 0 (omega (arith, at)) in
      (
        rw (here) refl,
        omega (arith, at, length-append before (some l ∷ xs)),
        subst (λ ys. AllAt ys (somes xs)) (append_assoc before (some l ∷ []) xs)
            (Placed-AllAt (before ++ (some l ∷ [])) xs
              (subst (λ n. Placed n xs) (omega (arith, length-append before (some l ∷ []))) p)),
      )

  pub Placed-append :
      (n : ℕ) (xs : List (Option (LeafQueryData N))) (k : ℕ) (l : LeafQueryData N)
      → leaf_height N l ≡ n + length xs + k
      → Placed n xs
      → Placed n (xs ++ (replicate k none ++ (some l ∷ [])))
  Placed-append n [] zero l e p = (omega (arith, e), tt)
  Placed-append n [] (suc k) l e p = Placed-append (suc n) [] k l (omega (arith, e)) tt
  Placed-append n (none ∷ xs) k l e p = Placed-append (suc n) xs k l (omega (arith, e)) p
  Placed-append n (some x ∷ xs) k l e (at, p) =
      (at, Placed-append (suc n) xs k l (omega (arith, e)) p)

  pub AllAt-drop :
      (xs : List (Option (LeafQueryData N))) (n : ℕ) (ls : List (LeafQueryData N))
      → AllAt xs ls
      → AllAt xs (drop n ls)
  AllAt-drop xs zero ls a = a
  AllAt-drop xs (suc n) [] a = tt
  AllAt-drop xs (suc n) (l ∷ ls) (at, small, a) = AllAt-drop xs n ls a
