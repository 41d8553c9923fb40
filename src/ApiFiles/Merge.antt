-- ===== src/ApiFiles/Merge.antt =====
-- What `merge_toml` of src/api.rs keeps and adds.
use Prim.Native.String.{String}
use text.Mathlib.Text.{◌==◌}
use text.Mathlib.TextEquality.{eq_iff}
use hotshot_query_service.Prelude.{
  Option, none, some, List, [], ◌∷◌, ◌++◌, ◌≡◌, refl, sym, subst, ap, ◌∙◌, Bool-cases, Option-cases,
  inl, inr, arith, if◌then◌else◌,
}
use hotshot_query_service.ApiFiles.Toml.{
  Value, Table, plain, table, end, entry, get, upsert, merge_toml, merge_entries, member, find,
  IsDocument, IsTable,
}

module _ {L : Type 0} where
  -- A value of one table, merged with the value of another one at the same key.
  abbrev merged : Option (Value L) → Option (Value L) → Option (Value L)
  merged none o = o
  merged (some w) none = some w
  merged (some w) (some v) = some (merge_toml w v)

  abbrev upserted : Value L → (Value L → Value L) → Option (Value L) → Value L
  upserted v f none = v
  upserted v f (some w) = f w

  get-upsert :
      (t : Table L) (j : String) (v : Value L) (f : Value L → Value L) (k : String)
      → get (upsert t j v f) k ≡ (if j == k then some (upserted v f (get t j)) else get t k)
  unfolding get upsert
  get-upsert end j v f k = ground arith
  get-upsert (entry i w t) j v f k =
      ground (arith, eq_iff i j, eq_iff j k, eq_iff i k, get-upsert t j v f k)

  merged-none : (o : Option (Value L)) → merged o none ≡ o
  merged-none none = refl
  merged-none (some w) = refl

  merged-some :
      (o : Option (Value L)) (v : Value L)
      → merged o (some v) ≡ some (upserted v (λ w. merge_toml w v) o)
  merged-some none v = refl
  merged-some (some w) v = refl

  -- The value at a key of the merged table is the value in the first table, merged with the one of
  -- the second.
  pub get-merge_entries :
      (t u : Table L) (k : String)
      → IsTable u
      → get (merge_entries t u) k ≡ merged (get t k) (get u k)
  unfolding get merge_toml
  get-merge_entries t end k ok = sym (merged-none (get t k))
  get-merge_entries t (entry j v u) k ok =
      let f : Value L → Value L = λ w. merge_toml w v in
      get-merge_entries (upsert t j v f) u k ok.2
      ∙ ap (λ (o : Option (Value L)). merged o (get u k)) (get-upsert t j v f k)
      ∙ elim (Bool-cases (j == k)) [
        | inl same ↦
            let e : j ≡ k = (eq_iff j k).0 same in
            rw (same) (
              let g : get u k ≡ none = ap (get u) (sym e) ∙ ok.0 in
              rw (g) (
                ap (λ (x : String). some (upserted v f (get t x))) e
                ∙ sym (merged-some (get t k) v)))
        | inr differ ↦ rw (differ) refl
      ]

  some_injective : {v w : Value L} → some v ≡ some w → v ≡ w
  some_injective h = cc h

  get-IsDocument :
      (t : Table L) (k : String) {v : Value L} → IsTable t → get t k ≡ some v → IsDocument v
  unfolding get
  get-IsDocument end k ok h = cc
  get-IsDocument (entry j w t) k ok h = elim (Bool-cases (j == k)) [
    | inl same ↦ subst IsDocument (some_injective (rw same at h)) ok.1
    | inr differ ↦ get-IsDocument t k ok.2 (rw differ at h)
  ]

  -- If a path of keys leads to a value of a document, and no table of a second document has two
  -- entries with one key, then in the second document merged into the first the path leads to that
  -- value if it leads nowhere in the second document, and otherwise to what the second document
  -- has there merged into that value.
  pub find-merge_toml :
      (p : List String) (into from : Value L) {w : Value L}
      → IsDocument from
      → find into p ≡ some w
      → find (merge_toml into from) p
        ≡ some (elim (find from p) [ none ↦ w | some v ↦ merge_toml w v ])
  unfolding find member merge_toml
  find-merge_toml [] into from ok h = cc h
  find-merge_toml (k ∷ p) (plain l) from ok h = cc
  find-merge_toml (k ∷ p) (table t) (plain l) ok h = h
  find-merge_toml (k ∷ p) (table t) (table u) {w} ok h =
      let m = get-merge_entries t u k ok in
      elim (Option-cases (get t k)) [
        | inl missing ↦ ground arith
        | inr (x, gt) ↦ elim (Option-cases (get u k)) [
          | inl gu ↦ ground arith
          | inr (y, gu) ↦
              ground
                (arith, find-merge_toml p x y {w = w} (get-IsDocument u k ok gu) (ground arith))
        ]
      ]

  find-IsDocument :
      (v : Value L) (p : List String) {w : Value L}
      → IsDocument v
      → find v p ≡ some w
      → IsDocument w
  unfolding find member
  find-IsDocument v [] ok h = subst IsDocument (some_injective h) ok
  find-IsDocument (plain l) (k ∷ p) ok h = cc
  find-IsDocument (table t) (k ∷ p) {w} ok h = elim (Option-cases (get t k)) [
    | inl missing ↦ ground arith
    | inr (x, e) ↦ find-IsDocument x p {w = w} (get-IsDocument t k ok e) (ground arith)
  ]

  find-append :
      (v : Value L) (p q : List String)
      → find v (p ++ q) ≡ elim (find v p) [ none ↦ none | some w ↦ find w q ]
  unfolding find
  find-append v [] q = refl
  find-append v (k ∷ p) q = elim (Option-cases (member v k)) [
    | inl missing ↦ ground arith
    | inr (x, e) ↦ ground (arith, find-append x p q)
  ]

  find-beside :
      (t : Table L) (y : Value L) (k : String) (q : List String) {v : Value L}
      → IsDocument y
      → get t k ≡ none
      → find y (k ∷ q) ≡ some v
      → find (merge_toml (table t) y) (k ∷ q) ≡ some v
  unfolding find member merge_toml
  find-beside t (plain l) k q ok free h = cc
  find-beside t (table u) k q ok free h = ground (arith, get-merge_entries t u k ok)

  -- What `from` has below a key that a table of `into` lacks is added as it is.
  pub find-merge_toml_added :
      (p : List String) (k : String) (q : List String) (into from : Value L) {t : Table L}
      {v : Value L}
      → IsDocument from
      → find into p ≡ some (table t)
      → get t k ≡ none
      → find from (p ++ (k ∷ q)) ≡ some v
      → find (merge_toml into from) (p ++ (k ∷ q)) ≡ some v
  find-merge_toml_added p k q into from {t} {v} ok at_p free h = elim (Option-cases (find from p)) [
    | inl missing ↦ ground (arith, find-append from p (k ∷ q))
    | inr (y, e) ↦
        let below : find y (k ∷ q) ≡ some v = ground (arith, find-append from p (k ∷ q)) in
        ground (
          arith,
          find-append (merge_toml into from) p (k ∷ q),
          find-merge_toml p into from {w = table t} ok at_p,
          find-beside t y k q {v = v} (find-IsDocument from p {w = y} ok e) free below,
        )
  ]
