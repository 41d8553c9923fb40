-- ===== src/Sql/Finds.antt =====
-- Rows that are found by their height in the tables of src/data_source/sql.rs, and numbers that are
-- read back.
use hotshot_query_service.Prelude.{
  ℕ, none, some, List, [], ◌∷◌, ◌++◌, Bool, true, map_option, ◌≡◌, refl, arith, Bool-cases, inl,
  inr, ◌<◌, ◌^◌,
}
use hotshot_query_service.Availability.Payload.{find}
use hotshot_query_service.Metrics.Values.{ℤ, pos, negsuc}
use hotshot_query_service.Sql.Client.{as_i32, as_usize}
use hotshot_query_service.Sql.Tables.{
  Tables, HeaderRow, PayloadRow, eq_int, find_header, find_payload, find_block, set_payload,
}

pub eq_int_refl : (h : ℤ) → eq_int h h ≡ true
unfolding eq_int
eq_int_refl (pos n) = ground arith
eq_int_refl (negsuc n) = ground arith

-- A row behind rows none of which is found.
pub find_new :
    {A : Type 0} (p : A → Bool) (xs : List A) (x : A)
    → find p xs ≡ none
    → p x ≡ true
    → find p (xs ++ (x ∷ [])) ≡ some x
unfolding find
find_new p [] x new e = ground (arith, e)
find_new p (y ∷ xs) x new e = elim (Bool-cases (p y)) [
  | inl f ↦ absurd (ground (arith, new, f))
  | inr f ↦ let rest = find_new p xs x (ground (arith, new, f)) e in ground (arith, f, rest)
]

pub find_payload-set_payload :
    (bytes : List ℕ) (size h : ℤ) (rows : List PayloadRow)
    → find_payload h (set_payload bytes size h rows)
      ≡ map_option {A = PayloadRow}
          (λ r. record r { size = some size; bytes = some bytes })
          (find_payload h rows)
unfolding find set_payload
find_payload-set_payload bytes size h [] = refl
find_payload-set_payload bytes size h (r ∷ rows) =
    let rest = find_payload-set_payload bytes size h rows in
    elim (Bool-cases (eq_int r.height h)) [
      | inl e ↦ ground (arith, e)
      | inr e ↦ ground (arith, e, rest)
    ]

pub find_block_lem :
    {J T : Type 0} (h : ℤ) (t : Tables J T) (r : HeaderRow J T) (p : PayloadRow)
    → find_header h t.header ≡ some r
    → find_payload h t.payload ≡ some p
    → find_block h t ≡ some (r, p)
unfolding find_block
find_block_lem h t r p e f = ground (arith, e, f)

pub as_usize-as_i32 : (n : ℕ) → n < 2 ^ 31 → as_usize (as_i32 n) ≡ n
unfolding as_usize as_i32
as_usize-as_i32 n small = ground arith
