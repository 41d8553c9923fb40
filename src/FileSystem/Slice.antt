-- ===== src/FileSystem/Slice.antt =====
-- What `range_stream` of src/data_source/fs.rs yields: a slice of the objects of a log.
use hotshot_query_service.Prelude.{
  ℕ, zero, suc, ◌+◌, ◌-◌, ◌^◌, ◌<◌, ◌≡◌, refl, sym, ap, ◌∙◌, Option, List, [], ◌∷◌, length, drop,
  take, map, take-nil, length-drop, context, arith, Bool-cases, inl, inr, true, false, add_usize,
  ltb, ◌≤◌, length-map, length-take,
}
use hotshot_query_service.AppendLog.{AppendLog, AppendLogLaws}
use hotshot_query_service.Errors.{QueryResult, missing, QueryError}
use hotshot_query_service.LedgerLog.Iter.{Iter, nth, next, count}
use hotshot_query_service.LedgerLog.Iter.Remaining.{remaining, IsFed, remaining-nth, index-nth}
use hotshot_query_service.LedgerLog.Defs.{LedgerLog, iter}
use hotshot_query_service.LedgerLog.Inv.{objects}
use hotshot_query_service.LedgerLog.Contents.{IsSound}
use hotshot_query_service.LedgerLog.Reads.{IsSettled, remaining-iter, count-iter}
use hotshot_query_service.LedgerLog.Broadcast.{IsSmall}
use hotshot_query_service.LedgerLog.Stream.{read_front, read_rest}
use hotshot_query_service.FileSystem.Range.{
  Bound, included, excluded, unbounded, reached_end, range_start, range_from, range_stream,
}

-- The first position of a range, and the first one behind it in a list of a length.
abbrev pub first_of : Bound → ℕ
first_of (included n) = n
first_of (excluded n) = n + 1
first_of unbounded = 0

abbrev pub behind : Bound → ℕ → ℕ
behind (included n) len = n + 1
behind (excluded n) len = n
behind unbounded len = len

-- The bound can be passed by a `usize`.
unfoldable pub IsShort : Bound → Type 0
IsShort (included n) = n < 2 ^ 64
IsShort (excluded n) = n + 1 < 2 ^ 64
IsShort unbounded = Unit

-- The entries of a slice, where a placeholder is missing.
unfoldable pub slice : {T : Type 0} → Bound → Bound → List (Option T) → List (QueryResult T)
slice start end xs =
    map (context missing)
      (take (behind end (length xs) - first_of start) (drop (first_of start) xs))

reached :
    (end : Bound) (pos len : ℕ) → reached_end end pos ≡ true → behind end (pos + suc len) - pos ≡ 0
unfolding reached_end
reached (included n) pos len e = ground arith
reached (excluded n) pos len e = ground arith
reached unbounded pos len e = ground (arith, e)

not_reached :
    (end : Bound) (pos len : ℕ)
    → reached_end end pos ≡ false
    → behind end (pos + suc len) - pos ≡ suc (behind end (suc pos + len) - suc pos)
unfolding reached_end
not_reached (included n) pos len e = ground arith
not_reached (excluded n) pos len e = ground arith
not_reached unbounded pos len e = ground (arith, e)

first_small : (start : Bound) → IsShort start → first_of start < 2 ^ 64
unfolding IsShort
first_small (included n) short = short
first_small (excluded n) short = short
first_small unbounded short = omega arith

-- The length of what is left of a list, from a position on.
steps :
    {A : Type 0} (end : Bound) (n : ℕ) (xs : List A)
    → behind end (n + length (drop n xs)) - n ≡ behind end (length xs) - n
steps (included m) n xs = refl
steps (excluded m) n xs = refl
steps unbounded n xs = omega (arith, length-drop n xs)

module _ {E T : Type 0} where
  range_from-take :
      (fuel : ℕ) (end : Bound) (pos : ℕ) (it : Iter E T) (xs : List (Option T))
      → drop 0 (remaining it) ≡ xs
      → IsFed it
      → it.index + length xs < 2 ^ 64
      → pos + length xs < 2 ^ 64
      → length xs < fuel
      → range_from fuel end pos it
        ≡ map (context missing) (take (behind end (pos + length xs) - pos) xs)
  unfolding range_from next
  range_from-take zero end pos it xs e fed small near enough = absurd (omega arith)
  range_from-take (suc fuel) end pos it [] e fed small near enough =
      let none_left = read_front it 0 [] e fed (omega arith) in
      let nothing : map (context missing) (take (behind end (pos + 0) - pos) []) ≡ [] =
        ap (map (context missing)) (take-nil {A = Option T} (behind end (pos + 0) - pos)) in
      elim (Bool-cases (reached_end end pos)) [
        | inl f ↦ ground (arith, f, nothing)
        | inr f ↦ ground (arith, f, none_left, nothing)
      ]
  range_from-take (suc fuel) end pos it (x ∷ xs) e fed small near enough =
      let (_, fed') = remaining-nth it 0 fed (omega arith) in
      let head = read_front it 0 (x ∷ xs) e fed (omega arith) in
      let one_more : add_usize pos 1 ≡ suc pos = omega arith in
      elim (Bool-cases (reached_end end pos)) [
        | inl f ↦ let stop = reached end pos (length xs) f in ground (arith, f, stop)
        | inr f ↦
            let go = not_reached end pos (length xs) f in
            let rest =
              range_from-take fuel end (suc pos) (nth it 0).1 xs
                (read_rest it 0 (x ∷ xs) e fed (omega arith)) fed'
                (omega (arith, index-nth it 0 fed)) (omega arith) (omega arith) in
            ground (arith, f, head, one_more, go, rest)
      ]

  -- Where the stream starts.
  pub record IsMoved (it : Iter E T) (n : ℕ) (moved : ℕ × Iter E T) : Type 0 where
    pub position : moved.0 ≡ n
    pub left : remaining moved.1 ≡ drop n (remaining it)
    pub fed : IsFed moved.1
    pub at : moved.1.index ≡ n

  -- Reading the object in front of a position moves the iterator there.
  nth-IsMoved :
      (it : Iter E T) (n m pos : ℕ)
      → IsFed it
      → it.index ≡ 0
      → m < 2 ^ 64
      → m ≡ n + 1
      → pos ≡ m
      → IsMoved it m (pos, (nth it n).1)
  nth-IsMoved it n m pos fed zero_ small e f =
      let (left, fed') = remaining-nth it n fed (omega arith) in
      record {
        position = f;
        left = left ∙ ap (λ k. drop k (remaining it)) (sym e);
        fed = fed';
        at = omega (arith, index-nth it n fed);
      }

  range_start_lem :
      (start : Bound) (it : Iter E T)
      → IsFed it
      → it.index ≡ 0
      → IsShort start
      → IsMoved it (first_of start) (range_start start it)
  unfolding range_start IsShort
  range_start_lem (included zero) it fed zero_ short = record {
    position = refl;
    left = refl;
    fed = fed;
    at = zero_;
  }
  range_start_lem (included (suc n)) it fed zero_ short =
      let e : ltb 0 (suc n) ≡ true = ground arith in
      let k : suc n - 1 ≡ n = omega arith in
      rw (e, k) (nth-IsMoved it n (suc n) (suc n) fed zero_ short (omega arith) refl)
  range_start_lem (excluded n) it fed zero_ short =
      nth-IsMoved it n (n + 1) (add_usize n 1) fed zero_ short (omega arith) (omega (arith, short))
  range_start_lem unbounded it fed zero_ short = record {
    position = refl;
    left = refl;
    fed = fed;
    at = zero_;
  }

  range_from-slice :
      (L : AppendLog E T) (laws : AppendLogLaws L) (log : LedgerLog L) (start end : Bound)
      (fuel : ℕ)
      → IsSound L laws log
      → IsSettled L laws log
      → IsSmall L laws log
      → IsShort start
      → count (iter L log) < fuel
      → range_from fuel end (range_start start (iter L log)).0 (range_start start (iter L log)).1
        ≡ slice start end (objects L laws log)
  unfolding range_from slice iter IsShort
  range_from-slice L laws log start end fuel s h small short enough =
      let it = iter L log in
      let xs = objects L laws log in
      let n = first_of start in
      let fed : IsFed it = omega arith in
      let m = range_start_lem start it fed refl short in
      let left : remaining (range_start start it).1 ≡ drop n xs =
        m.left ∙ ap (drop n) (remaining-iter L laws log s h) in
      let near : n + length (drop n xs) < 2 ^ 64 =
        omega (arith, first_small start short, length-drop n xs) in
      range_from-take fuel end (range_start start it).0 (range_start start it).1 (drop n xs) left
        m.fed (omega (arith, m.at)) (omega (arith, m.position))
        (omega (arith, enough, length-drop n xs, count-iter L laws log s h))
      ∙ ap (λ p. map (context missing) (take (behind end (p + length (drop n xs)) - p) (drop n xs)))
          m.position
      ∙ ap (λ k. map (context missing) (take k (drop n xs))) (steps end n xs)

  -- The stream over a range of a small well-formed log, with a first position below 2^64, yields
  -- the objects of that slice of the log in order, with a placeholder answered as missing, when
  -- storage holds everything in front of the cache.
  pub range_stream-slice :
      (L : AppendLog E T) (laws : AppendLogLaws L) (log : LedgerLog L) (start end : Bound)
      → IsSound L laws log
      → IsSettled L laws log
      → IsSmall L laws log
      → IsShort start
      → range_stream (iter L log) start end ≡ slice start end (objects L laws log)
  unfolding range_stream
  range_stream-slice L laws log start end s h small short =
      range_from-slice L laws log start end (count (iter L log) + 1) s h small short (omega arith)

  -- The loop of the stream over a range of a small well-formed log, with a first position below
  -- 2^64 and storage holding everything in front of the cache, ends by itself: with any fuel above
  -- the number of objects that the iterator announces it yields what the stream yields, and that
  -- is at most as many entries.
  pub range_from-ends :
      (L : AppendLog E T) (laws : AppendLogLaws L) (log : LedgerLog L) (start end : Bound)
      (fuel : ℕ)
      → IsSound L laws log
      → IsSettled L laws log
      → IsSmall L laws log
      → IsShort start
      → count (iter L log) < fuel
      → (range_from fuel end (range_start start (iter L log)).0 (range_start start (iter L log)).1
          ≡ range_stream (iter L log) start end)
        × (length (range_stream (iter L log) start end) ≤ count (iter L log))
  unfolding slice
  range_from-ends L laws log start end fuel s h small short enough =
      let is_slice = range_stream-slice L laws log start end s h small short in
      let xs = objects L laws log in
      let kept = behind end (length xs) - first_of start in
      let rest = drop (first_of start) xs in
      (
        range_from-slice L laws log start end fuel s h small short enough ∙ sym is_slice,
        omega (
          arith,
          ap length is_slice,
          length-map (context {E = QueryError} {A = T} missing) (take kept rest),
          length-take kept rest,
          length-drop (first_of start) xs,
          count-iter L laws log s h,
        ),
      )
