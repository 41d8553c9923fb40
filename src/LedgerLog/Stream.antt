-- ===== src/LedgerLog/Stream.antt =====
-- The ordered stream of src/data_source/ledger_log.rs: what `commit_version` broadcasts, and what a
-- subscriber receives.
use hotshot_query_service.Prelude.{
  ℕ, zero, suc, ◌+◌, ◌^◌, ◌≤◌, ◌<◌, ◌≡◌, refl, sym, ap, ◌∙◌, Option, none, some, List, [], ◌∷◌, map,
  length, drop, take, get_elem?, arith, get_elem?-drop, drop-drop,
}
use hotshot_query_service.LedgerLog.Iter.{Iter, nth, next}
use hotshot_query_service.LedgerLog.Iter.Remaining.{
  remaining, IsFed, nth-reads, remaining-nth, index-nth,
}
use hotshot_query_service.LedgerLog.Defs.{available, collect_some}

-- The objects in front of the first missing one.
abbrev pub some_prefix : {T : Type 0} → List (Option T) → List T
some_prefix [] = []
some_prefix (none ∷ xs) = []
some_prefix (some x ∷ xs) = x ∷ some_prefix xs

module _ {E T : Type 0} where
  -- The loop of `commit_version`, after it has read `o`: `xs` is what was left before that.
  pub available-some_prefix :
      (fuel : ℕ) (o : Option (Option T)) (it : Iter E T) (xs : List (Option T))
      → o ≡ get_elem? xs 0
      → remaining it ≡ drop 1 xs
      → IsFed it
      → it.index + length xs < 2 ^ 64
      → length xs < fuel
      → available fuel o it ≡ some_prefix xs
  unfolding available next
  available-some_prefix zero o it xs eo er fed small enough = absurd (omega arith)
  available-some_prefix (suc fuel) o it [] eo er fed small enough = rw eo
  available-some_prefix (suc fuel) o it (none ∷ xs) eo er fed small enough = rw eo
  available-some_prefix (suc fuel) o it (some x ∷ xs) eo er fed small enough =
      let (left, fed') = remaining-nth it 0 fed (omega arith) in
      rw eo (
        ap (◌∷◌ x) (
          available-some_prefix fuel (nth it 0).0 (nth it 0).1 xs
            (nth-reads it 0 fed (omega arith) ∙ ap (λ ys. get_elem? ys 0) er)
            (left ∙ ap (drop (0 + 1)) er) fed' (omega (arith, index-nth it 0 fed)) (omega arith)))

  pub read_front :
      (it : Iter E T) (n : ℕ) (xs : List (Option T))
      → drop n (remaining it) ≡ xs
      → IsFed it
      → it.index + n < 2 ^ 64
      → (nth it n).0 ≡ get_elem? xs 0
  read_front it n xs e fed small =
      let z : n ≡ n + 0 = omega arith in
      nth-reads it n fed small
      ∙ ap (get_elem? (remaining it)) z
      ∙ sym (get_elem?-drop n (remaining it) 0)
      ∙ ap (λ ys. get_elem? ys 0) e

  pub read_rest :
      (it : Iter E T) (n : ℕ) (xs : List (Option T))
      → drop n (remaining it) ≡ xs
      → IsFed it
      → it.index + n + 1 < 2 ^ 64
      → remaining (nth it n).1 ≡ drop 1 xs
  read_rest it n xs e fed small =
      (remaining-nth it n fed small).0 ∙ sym (drop-drop n 1 (remaining it)) ∙ ap (drop 1) e

  -- `skip(n).take(k).collect()` gives the objects, if none of them is missing.
  pub collect_some_lem :
      (k n : ℕ) (it : Iter E T) (xs : List (Option T)) (ys : List T)
      → drop n (remaining it) ≡ xs
      → take k xs ≡ map some ys
      → IsFed it
      → it.index + n + k < 2 ^ 64
      → collect_some k n it ≡ some ys
  unfolding collect_some
  collect_some_lem zero n it xs [] d e fed small = refl
  collect_some_lem zero n it xs (y ∷ ys) d e fed small = cc
  collect_some_lem (suc k) n it [] [] d e fed small =
      rw (read_front it n [] d fed (omega arith), collect_some)
  collect_some_lem (suc k) n it [] (y ∷ ys) d e fed small = cc
  collect_some_lem (suc k) n it (none ∷ xs) [] d e fed small = cc
  collect_some_lem (suc k) n it (none ∷ xs) (y ∷ ys) d e fed small = cc
  collect_some_lem (suc k) n it (some x ∷ xs) [] d e fed small = cc
  collect_some_lem (suc k) n it (some x ∷ xs) (y ∷ ys) d e fed small =
      let rest : take k xs ≡ map some ys = cc in
      let same : x ≡ y = cc in
      let (_, fed') = remaining-nth it n fed (omega arith) in
      rw (read_front it n (some x ∷ xs) d fed (omega arith), collect_some)
        (rw
          (collect_some_lem k 0 (nth it n).1 xs ys
            (read_rest it n (some x ∷ xs) d fed (omega arith)) rest fed'
            (omega (arith, index-nth it n fed)))
          (ap (λ z. some (z ∷ ys)) same))

-- How the prefix grows: it is a prefix, it is all there is up to its length, and what stands behind
-- it is missing or not there yet.
module _ {T : Type 0} where
  pub take-some_prefix :
      (xs : List (Option T)) → take (length (some_prefix xs)) xs ≡ map some (some_prefix xs)
  take-some_prefix [] = refl
  take-some_prefix (none ∷ xs) = refl
  take-some_prefix (some x ∷ xs) = ap (◌∷◌ (some x)) (take-some_prefix xs)

  abbrev pub IsAvailable : Option (Option T) → Type 0
  IsAvailable none = ⊥
  IsAvailable (some none) = ⊥
  IsAvailable (some (some x)) = Unit

  pub some_prefix-maximal :
      (xs : List (Option T)) → ¬ IsAvailable (get_elem? xs (length (some_prefix xs)))
  some_prefix-maximal [] = λ h. h
  some_prefix-maximal (none ∷ xs) = λ h. h
  some_prefix-maximal (some x ∷ xs) = some_prefix-maximal xs

  pub length-some_prefix : (xs : List (Option T)) → length (some_prefix xs) ≤ length xs
  length-some_prefix [] = omega arith
  length-some_prefix (none ∷ xs) = omega arith
  length-some_prefix (some x ∷ xs) = omega (arith, length-some_prefix xs)
