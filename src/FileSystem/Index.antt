-- ===== src/FileSystem/Index.antt =====
-- The indices of src/data_source/fs.rs: `HashMap`s as functions, and `update_index_by_hash`.
pub mod Earliest
use hotshot_query_service.Prelude.{
  ℕ, Option, none, some, List, [], ◌∷◌, ◌++◌, Bool, true, false, ite, if◌then◌else◌,
}

-- `HashMap::insert`
unfoldable pub insert_key : {K V : Type 0} → Discrete K → K → V → (K → Option V) → K → Option V
insert_key dec k v m j = ite (dec j k) (some v) (m j)

-- An entry stays unless the new position comes before it.
unfoldable pub update_index_by_hash :
    {H P : Type 0} → Discrete H → (P → P → Bool) → (H → Option P) → H → P → H → Option P
unfolding insert_key
update_index_by_hash dec lt index hash pos = elim (index hash) [
  | some entry ↦ if lt pos entry then insert_key dec hash pos index else index
  | none ↦ insert_key dec hash pos index
]

-- `entry(key).or_default().push(pos)`
unfoldable pub push_entry :
    {K V : Type 0} → Discrete K → (K → Option (List V)) → K → V → K → Option (List V)
unfolding insert_key
push_entry dec index key pos = elim (index key) [
  | some entries ↦ insert_key dec key (entries ++ (pos ∷ [])) index
  | none ↦ insert_key dec key (pos ∷ []) index
]
