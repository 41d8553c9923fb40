-- ===== src/FileSystem/Flatten.antt =====
-- `iter().flatten()`, by which src/data_source/fs.rs reads a log back: the objects that are not
-- missing.
use hotshot_query_service.Prelude.{
  ℕ, zero, suc, ◌+◌, ◌^◌, ◌<◌, ◌≡◌, refl, ap, ◌∙◌, Option, none, some, List, [], ◌∷◌, ◌++◌, length,
  drop, replicate, arith,
}
use hotshot_query_service.AppendLog.{AppendLog, AppendLogLaws}
use hotshot_query_service.LedgerLog.Iter.{Iter, nth, next, count}
use hotshot_query_service.LedgerLog.Iter.Remaining.{remaining, IsFed, remaining-nth, index-nth}
use hotshot_query_service.LedgerLog.Defs.{LedgerLog, iter}
use hotshot_query_service.LedgerLog.Inv.{objects}
use hotshot_query_service.LedgerLog.Contents.{IsSound}
use hotshot_query_service.LedgerLog.Reads.{IsSettled, remaining-iter, count-iter}
use hotshot_query_service.LedgerLog.Broadcast.{IsSmall}
use hotshot_query_service.LedgerLog.Stream.{read_front, read_rest}
use hotshot_query_service.FileSystem.Open.{flatten_iter}

-- The objects that are not missing.
abbrev pub somes : {T : Type 0} → List (Option T) → List T
somes [] = []
somes (none ∷ xs) = somes xs
somes (some x ∷ xs) = x ∷ somes xs

module _ {T : Type 0} where
  somes-append : (xs ys : List (Option T)) → somes (xs ++ ys) ≡ somes xs ++ somes ys
  somes-append [] ys = refl
  somes-append (none ∷ xs) ys = somes-append xs ys
  somes-append (some x ∷ xs) ys = ap (◌∷◌ x) (somes-append xs ys)

  somes-padded : (k : ℕ) (x : T) → somes (replicate k none ++ (some x ∷ [])) ≡ x ∷ []
  somes-padded zero x = refl
  somes-padded (suc k) x = somes-padded k x

  pub somes-extend :
      (xs : List (Option T)) (k : ℕ) (x : T)
      → somes (xs ++ (replicate k none ++ (some x ∷ []))) ≡ somes xs ++ (x ∷ [])
  somes-extend xs k x =
      somes-append xs (replicate k none ++ (some x ∷ []))
      ∙ ap (λ ys. somes xs ++ ys) (somes-padded k x)

  -- `iter().flatten()` lists the objects that are not missing.
  flatten_iter-somes :
      {E : Type 0} (fuel : ℕ) (it : Iter E T) (xs : List (Option T))
      → drop 0 (remaining it) ≡ xs
      → IsFed it
      → it.index + length xs < 2 ^ 64
      → length xs < fuel
      → flatten_iter fuel it ≡ somes xs
  unfolding flatten_iter next
  flatten_iter-somes zero it xs e fed small enough = absurd (omega arith)
  flatten_iter-somes (suc fuel) it [] e fed small enough =
      rw (read_front it 0 [] e fed (omega arith), flatten_iter)
  flatten_iter-somes (suc fuel) it (none ∷ xs) e fed small enough =
      let (_, fed') = remaining-nth it 0 fed (omega arith) in
      rw (read_front it 0 (none ∷ xs) e fed (omega arith), flatten_iter)
        (flatten_iter-somes fuel (nth it 0).1 xs (read_rest it 0 (none ∷ xs) e fed (omega arith))
          fed' (omega (arith, index-nth it 0 fed)) (omega arith))
  flatten_iter-somes (suc fuel) it (some x ∷ xs) e fed small enough =
      let (_, fed') = remaining-nth it 0 fed (omega arith) in
      rw (read_front it 0 (some x ∷ xs) e fed (omega arith), flatten_iter)
        (ap (◌∷◌ x) (
          flatten_iter-somes fuel (nth it 0).1 xs (read_rest it 0 (some x ∷ xs) e fed (omega arith))
            fed' (omega (arith, index-nth it 0 fed)) (omega arith)))

  -- Flattening the iterator of a small well-formed log, with fuel for its length and one more
  -- step, lists the objects that are not missing, when storage holds everything in front of the
  -- cache.
  pub flatten_iter-objects :
      {E : Type 0} (L : AppendLog E T) (laws : AppendLogLaws L) (log : LedgerLog L)
      → IsSound L laws log
      → IsSettled L laws log
      → IsSmall L laws log
      → flatten_iter (count (iter L log) + 1) (iter L log) ≡ somes (objects L laws log)
  unfolding iter
  flatten_iter-objects L laws log s h small =
      flatten_iter-somes (count (iter L log) + 1) (iter L log) (objects L laws log)
        (remaining-iter L laws log s h) (omega arith) (omega arith)
        (omega (arith, count-iter L laws log s h))
