-- ===== src/LedgerLog/Iter.antt =====
-- `Iter` of src/data_source/ledger_log.rs: an iterator that reads from the cache where it can, and
-- from storage in front of it.
pub mod Remaining
use hotshot_query_service.Prelude.{
  ℕ, ◌+◌, ◌-◌, Option, List, length, get_elem?, drop, leb, if◌then◌else◌, add_usize, Result,
  to_option, flatten_option, map_option,
}

-- `store` holds what the iterator of the storage has not yielded yet.
pub record Iter (E T : Type 0) : Type 0 where
  pub index : ℕ
  pub cache_start : ℕ
  pub cache : List (Option T)
  pub store : List (Result E (Option T))

-- `res.ok().flatten()`: an object that fails to load is missing.
abbrev pub load : {E T : Type 0} → Result E (Option T) → Option T
load res = flatten_option (to_option res)

module _ {E T : Type 0} where
  -- What is read: an entry of the cache if the position lies in it, else the `n`th entry that is
  -- left in the storage's iterator, which then stands behind it.
  unfoldable pub nth : Iter E T → ℕ → Option (Option T) × Iter E T
  nth it n =
      let index = add_usize it.index n in
      if leb it.cache_start index
      then (get_elem? it.cache (index - it.cache_start), record it { index = add_usize index 1 })
      else (
        map_option load (get_elem? it.store n),
        record it { index = add_usize index 1; store = drop (n + 1) it.store },
      )

  unfoldable pub next : Iter E T → Option (Option T) × Iter E T
  next it = nth it 0

  unfoldable pub size_hint : Iter E T → ℕ × Option ℕ
  size_hint it = let len = it.cache_start + length it.cache - it.index in (len, Option.some len)

  unfoldable pub count : Iter E T → ℕ
  count it = (size_hint it).0
