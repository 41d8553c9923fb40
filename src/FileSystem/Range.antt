-- ===== src/FileSystem/Range.antt =====
-- `range_stream` of src/data_source/fs.rs: the objects of a log at the positions of a range.
use hotshot_query_service.Prelude.{
  ℕ, zero, suc, ◌+◌, ◌-◌, none, some, List, [], ◌∷◌, Bool, true, false, ltb, leb, if◌then◌else◌,
  add_usize, context,
}
use hotshot_query_service.Errors.{QueryResult, missing}
use hotshot_query_service.LedgerLog.Iter.{Iter, nth, next, count}

-- `std::ops::Bound<usize>`
pub data Bound : Type 0 where
  included : ℕ → Bound
  excluded : ℕ → Bound
  unbounded : Bound

unfoldable pub reached_end : Bound → ℕ → Bool
reached_end (included n) pos = ltb n pos
reached_end (excluded n) pos = leb n pos
reached_end unbounded pos = false

module _ {E T : Type 0} where
  -- The position at which the stream starts, and the iterator moved there.
  unfoldable pub range_start : Bound → Iter E T → ℕ × Iter E T
  range_start (included n) it = if ltb 0 n then (n, (nth it (n - 1)).1) else (n, it)
  range_start (excluded n) it = (add_usize n 1, (nth it n).1)
  range_start unbounded it = (0, it)

  -- What the stream yields from the position on. The fuel is the number of objects, and one.
  unfoldable pub range_from : ℕ → Bound → ℕ → Iter E T → List (QueryResult T)
  unfolding reached_end
  range_from zero end pos it = []
  range_from (suc fuel) end pos it = elim (reached_end end pos) [
    | true ↦ []
    | false ↦ elim (next it).0 [
      | none ↦ []
      | some opt ↦ context missing opt ∷ range_from fuel end (add_usize pos 1) (next it).1
    ]
  ]

  unfoldable pub range_stream : Iter E T → Bound → Bound → List (QueryResult T)
  unfolding range_start range_from
  range_stream it start end =
      let (pos, it') = range_start start it in range_from (count it + 1) end pos it'
