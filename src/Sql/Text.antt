-- ===== src/Sql/Text.antt =====
-- The numbers and lists of the statements of src/data_source/sql.rs as text (`format!`, `join`).
use hotshot_query_service.Prelude.{
  ℕ, zero, suc, ◌%◌, List, [], ◌∷◌, ltb, if◌then◌else◌, get_elem?, some, none, some,
}
use Prim.Native.Nat.{◌/◌}
use Prim.Native.String.{String, ◌++◌ as append}

abbrev digits : List String
digits = "0" ∷ "1" ∷ "2" ∷ "3" ∷ "4" ∷ "5" ∷ "6" ∷ "7" ∷ "8" ∷ "9" ∷ []

unfoldable pub digit : ℕ → String
digit n = elim (get_elem? digits n) [ some s ↦ s | none ↦ "" ]

unfoldable pub show_digits : ℕ → ℕ → String
unfolding digit
show_digits zero n = ""
show_digits (suc fuel) n =
    let higher = show_digits fuel (n / 10) in
    if ltb n 10 then digit n else append higher (digit (n % 10))

-- A number in decimal.
unfoldable pub show : ℕ → String
unfolding show_digits
show n = show_digits (suc n) n

-- `join`
unfoldable pub join : List String → String → String
join [] sep = ""
join (s ∷ []) sep = s
join (s ∷ t ∷ ss) sep = append s (append sep (join (t ∷ ss) sep))
