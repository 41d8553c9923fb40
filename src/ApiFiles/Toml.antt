-- ===== src/ApiFiles/Toml.antt =====
-- The TOML documents of src/api.rs, and `merge_toml`.
--
-- A `toml::Value` is a table, or a value that the code never looks into: of the type `L`. A table
-- (`toml::map::Map`) is the list of its entries, which the code reads and writes by their keys.
use Prim.Native.String.{String}
use text.Mathlib.Text.{◌==◌}
use hotshot_query_service.Prelude.{Option, none, some, List, [], ◌∷◌, ◌≡◌, if◌then◌else◌}

mutual
  pub data Value (L : Type 0) : Type 0 where
    plain : L → Value L
    table : Table L → Value L

  pub data Table (L : Type 0) : Type 0 where
    end : Table L
    entry : String → Value L → Table L → Table L

module _ {L : Type 0} where
  unfoldable pub get : Table L → String → Option (Value L)
  get end k = none
  get (entry j v t) k = let rest = get t k in if j == k then some v else rest

  -- `into.entry(key)`: an occupied entry is changed by `f`, into a vacant one goes `v`.
  unfoldable pub upsert : Table L → String → Value L → (Value L → Value L) → Table L
  upsert end k v f = entry k v end
  upsert (entry j w t) k v f =
      let rest = upsert t k v f in if j == k then entry j (f w) t else entry j w rest

unfoldable mutual
  unfolding upsert

  pub merge_toml : {L : Type 0} → Value L → Value L → Value L
  merge_toml into (plain l) = into
  merge_toml (plain l) (table from) = plain l
  merge_toml (table into) (table from) = table (merge_entries into from)

  -- The loop over the entries of `from`.
  pub merge_entries : {L : Type 0} → Table L → Table L → Table L
  merge_entries into end = into
  merge_entries into (entry k v from) = merge_entries (upsert into k v (λ w. merge_toml w v)) from

module _ {L : Type 0} where
  unfoldable pub member : Value L → String → Option (Value L)
  unfolding get
  member (plain l) k = none
  member (table t) k = get t k

  -- The value at a path of keys.
  unfoldable pub find : Value L → List String → Option (Value L)
  unfolding member
  find v [] = some v
  find v (k ∷ p) = elim (member v k) [ none ↦ none | some w ↦ find w p ]

-- No table of a document has two entries with one key.
abbrev mutual
  unfolding get

  pub IsDocument : {L : Type 0} → Value L → Type 0
  IsDocument (plain l) = Unit
  IsDocument (table t) = IsTable t

  pub IsTable : {L : Type 0} → Table L → Type 0
  IsTable end = Unit
  IsTable (entry k v t) = (get t k ≡ none) × IsDocument v × IsTable t
