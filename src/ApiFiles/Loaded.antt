-- ===== src/ApiFiles/Loaded.antt =====
-- The document that `load_api` of src/api.rs makes an API of.
use Prim.Native.String.{String}
use hotshot_query_service.Prelude.{
  Option, none, some, List, [], ◌∷◌, ◌++◌, ok, ◌≡◌, refl, ap, ◌∙◌, Option-cases, inl, arith, inr,
}
use hotshot_query_service.ApiFiles.{Framework, load_base, merge_extensions, load_api}
use hotshot_query_service.ApiFiles.Merge.{find-merge_toml, find-merge_toml_added}
use hotshot_query_service.ApiFiles.Toml.{
  Value, Table, plain, table, get, merge_toml, find, IsDocument,
}

module _ {L : Type 0} where
  abbrev pub AreDocuments : List (Value L) → Type 0
  AreDocuments [] = Unit
  AreDocuments (e ∷ es) = IsDocument e × AreDocuments es

  merge_toml-plain : (l : L) (v : Value L) → merge_toml (plain l) v ≡ plain l
  unfolding merge_toml
  merge_toml-plain l (plain m) = refl
  merge_toml-plain l (table t) = refl

  -- A setting survives the merge.
  find-merge_toml-plain :
      (p : List String) (into from : Value L) {l : L}
      → IsDocument from
      → find into p ≡ some (plain l)
      → find (merge_toml into from) p ≡ some (plain l)
  find-merge_toml-plain p into from {l} valid h = elim (Option-cases (find from p)) [
    | inl missing ↦ ground (arith, find-merge_toml p into from {w = plain l} valid h)
    | inr (v, e) ↦
        find-merge_toml p into from {w = plain l} valid h
        ∙ rw (e) (ap (λ (x : Value L). some x) (merge_toml-plain l v))
  ]

module _ {L : Type 0} (F : Framework L) where
  merge_extensions-find :
      (p : List String) (toml : Value L) (es : List (Value L)) {l : L}
      → AreDocuments es
      → find toml p ≡ some (plain l)
      → find (merge_extensions F toml es) p ≡ some (plain l)
  unfolding merge_extensions
  merge_extensions-find p toml [] valid h = h
  merge_extensions-find p toml (e ∷ es) {l} valid h =
      merge_extensions-find p (merge_toml toml e) es {l = l} valid.1
        (find-merge_toml-plain p toml e {l = l} valid.0 h)

  -- Whatever the extensions are, as long as none of their tables has two entries with one key, an
  -- API whose base document could be loaded is made of a document in which each value of the base
  -- that is no table stands where it stands in the base.
  pub load_api-find :
      (path : Option F.FilePath) (default : String) (es : List (Value L)) (p : List String)
      {base : Value L} {l : L}
      → load_base F path default ≡ ok base
      → AreDocuments es
      → find base p ≡ some (plain l)
      → (doc : Value L) × (load_api F path default es ≡ F.new_api doc)
        × (find doc p ≡ some (plain l))
  unfolding load_api
  load_api-find path default es p {base} {l} loaded valid h = (
    merge_extensions F base es,
    rw (loaded) refl,
    merge_extensions-find p base es {l = l} valid h,
  )

  -- A setting that the first extension has below a key which the table there lacks is in the
  -- document as well, whatever the later extensions are.
  pub load_api-find_added :
      (path : Option F.FilePath) (default : String) (e : Value L) (es : List (Value L))
      (p : List String) (k : String) (q : List String) {base : Value L} {t : Table L} {l : L}
      → load_base F path default ≡ ok base
      → AreDocuments (e ∷ es)
      → find base p ≡ some (table t)
      → get t k ≡ none
      → find e (p ++ (k ∷ q)) ≡ some (plain l)
      → (doc : Value L) × (load_api F path default (e ∷ es) ≡ F.new_api doc)
        × (find doc (p ++ (k ∷ q)) ≡ some (plain l))
  unfolding load_api merge_extensions
  load_api-find_added path default e es p k q {base} {t} {l} loaded valid at_p free h = (
    merge_extensions F base (e ∷ es),
    rw (loaded) refl,
    merge_extensions-find (p ++ (k ∷ q)) (merge_toml base e) es {l = l} valid.1
        (find-merge_toml_added p k q base e {t = t} {v = plain l} valid.0 at_p free h),
  )
