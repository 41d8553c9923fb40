-- ===== src/Metrics/Groups.antt =====
-- The tree of groups: `subgroup` and `get_subgroup`.
use hotshot_query_service.Prelude.{
  ℕ, Option, none, some, List, [], ◌∷◌, ◌++◌, length, get_elem?, set, Result, ok, ◌≡◌, ◌≢◌, ◌⊎◌,
  inl, inr, refl, sym, ap, ◌∙◌, arith, Option-cases, append_assoc, append-nil, ◌<◌, length-append,
  length-set, ite, ℕ_discrete, subst, ap₂,
}
use hotshot_query_service.Metrics.Grown.{get_elem?-lt, grown, grown_same, grown_last, grown_other}
use mathlib.Core.Logic.{if_pos, if_neg}
use hotshot_query_service.Metrics.{
  Prometheus, Store, Group, subgroup, child_of, namespace_of, get_subgroup, empty_group,
}
use hotshot_query_service.FileSystem.Index.{insert_key}
use hotshot_query_service.Metrics.Names.{Name, Name_discrete}

some-injective : {a b : ℕ} → ◌≡◌ {A = Option ℕ} (some a) (some b) → a ≡ b
some-injective e = cc

none≢some : {a : ℕ} → ◌≢◌ {A = Option ℕ} none (some a)
none≢some e = cc

ok-injective : {E : Type 0} {a b : ℕ} → ◌≡◌ {A = Result E ℕ} (ok a) (ok b) → a ≡ b
ok-injective e = cc

module _ {P : Prometheus} where
  -- A child is a group, and its namespace is its parent's followed by its own name.
  unfoldable pub IsValid : Store P → Type 0
  unfolding child_of namespace_of
  IsValid s =
      (id : ℕ) (name : Name) (child : ℕ)
      → child_of s id name ≡ some child
      → (child < length s.groups) × (namespace_of s child ≡ namespace_of s id ++ (name ∷ []))

  -- In a consistent tree, a group that is reached by a path has a namespace that is that of the
  -- start followed by the path.
  pub get_subgroup-namespace :
      (s : Store P) (id : ℕ) (path : List Name) (group : ℕ)
      → IsValid s
      → get_subgroup s id path ≡ ok group
      → namespace_of s group ≡ namespace_of s id ++ path
  unfolding IsValid get_subgroup
  get_subgroup-namespace s id [] group v e =
      ap (namespace_of s) (ok-injective (sym e)) ∙ sym (append-nil (namespace_of s id))
  get_subgroup-namespace s id (seg ∷ path) group v e = elim (Option-cases (child_of s id seg)) [
    | inl f ↦ ground (arith, e, f)
    | inr (next, f) ↦
        get_subgroup-namespace s next path group v (rw (f, get_subgroup) at e)
        ∙ ap (λ l. l ++ path) (v id seg next f).1
        ∙ append_assoc (namespace_of s id) (seg ∷ []) path
  ]

  module _ (s : Store P) (id : ℕ) (self : Group) (here : get_elem? s.groups id ≡ some self)
      (name : Name) (v : IsValid s) where
    -- The group with a new child.
    abbrev adopted : Group
    adopted = record self {
      children = insert_key Name_discrete name (length s.groups) self.children;
    }

    abbrev child_group : Group
    child_group = empty_group (self.namespace ++ (name ∷ []))

    abbrev widened : Store P
    widened = record s { groups = grown s.groups id adopted child_group }

    subgroup-hit : (c : ℕ) → self.children name ≡ some c → subgroup s id self name ≡ (s, c)
    unfolding subgroup
    subgroup-hit c e = rw (e, subgroup) refl

    subgroup-miss : self.children name ≡ none → subgroup s id self name ≡ (widened, length s.groups)
    unfolding subgroup empty_group insert_key
    subgroup-miss e = rw (e, subgroup) refl

    in_range : id < length s.groups
    in_range = get_elem?-lt s.groups id self here

    namespace_here : namespace_of s id ≡ self.namespace
    unfolding namespace_of
    namespace_here = rw (here, namespace_of) refl

    namespace_kept : (j : ℕ) → j < length s.groups → namespace_of widened j ≡ namespace_of s j
    unfolding namespace_of
    namespace_kept j h = elim (ℕ_discrete id j) [
      | yes e ↦
          subst (λ i. namespace_of widened i ≡ namespace_of s i) e
            (rw (grown_same s.groups id adopted child_group in_range, here, namespace_of) refl)
      | no n ↦ rw (grown_other s.groups id adopted child_group j n h, namespace_of) refl
    ]

    namespace_new : namespace_of widened (length s.groups) ≡ namespace_of s id ++ (name ∷ [])
    unfolding namespace_of empty_group
    namespace_new = rw (grown_last s.groups id adopted child_group, here, namespace_of) refl

    child_here :
        (n : Name)
        → child_of widened id n
          ≡ ite (Name_discrete n name) (some (length s.groups)) (child_of s id n)
    unfolding child_of insert_key
    child_here n = rw (grown_same s.groups id adopted child_group in_range, here, child_of) refl

    child_other :
        (j : ℕ) (n : Name) → id ≢ j → j < length s.groups → child_of widened j n ≡ child_of s j n
    unfolding child_of
    child_other j n other h =
        rw (grown_other s.groups id adopted child_group j other h, child_of) refl

    child_last : (n : Name) → child_of widened (length s.groups) n ≡ none
    unfolding child_of empty_group
    child_last n = rw (grown_last s.groups id adopted child_group, child_of) refl

    child_of-lt :
        (r : Store P) (j : ℕ) (n : Name) (child : ℕ)
        → child_of r j n ≡ some child
        → j < length r.groups
    unfolding child_of
    child_of-lt r j n child e = elim (Option-cases (get_elem? r.groups j)) [
      | inl f ↦ absurd (ground (arith, e, f))
      | inr (g, f) ↦ get_elem?-lt r.groups j g f
    ]

    below : (j : ℕ) → j ≢ length s.groups → j < length widened.groups → j < length s.groups
    below j l h = omega (
      arith,
      l,
      length-append (set s.groups id adopted) (child_group ∷ []),
      length-set s.groups id adopted,
    )

    child_of-widened :
        (j : ℕ) (n : Name) (child : ℕ)
        → child_of widened j n ≡ some child
        → ((j ≡ id) × (n ≡ name) × (child ≡ length s.groups)) ⊎ (child_of s j n ≡ some child)
    child_of-widened j n child e = elim (ℕ_discrete id j) [
      | yes same ↦ elim (Name_discrete n name) [
        | yes p ↦ inl (
          sym same,
          p,
          some-injective (
              sym (subst (λ i. child_of widened i n ≡ some child) (sym same) e)
              ∙ child_here n
              ∙ if_pos (Name_discrete n name) p _ _),
        )
        | no p ↦ inr (
            subst (λ i. child_of s i n ≡ some child) same
              (sym (child_here n ∙ if_neg (Name_discrete n name) p _ _)
                ∙ subst (λ i. child_of widened i n ≡ some child) (sym same) e))
      ]
      | no other ↦ elim (ℕ_discrete j (length s.groups)) [
        | yes l ↦
            absurd
              (none≢some (sym (child_last n) ∙ subst (λ i. child_of widened i n ≡ some child) l e))
        | no l ↦ inr (sym (child_other j n other (below j l (child_of-lt widened j n child e))) ∙ e)
      ]
    ]

    kept_valid :
        (j : ℕ) (n : Name) (child : ℕ)
        → child_of s j n ≡ some child
        → (child < length widened.groups)
          × (namespace_of widened child ≡ namespace_of widened j ++ (n ∷ []))
    unfolding IsValid
    kept_valid j n child e =
        let (h, k) = v j n child e in
        (
          rw
              (
                length-append (set s.groups id adopted) (child_group ∷ []),
                length-set s.groups id adopted,
              )
              (omega (arith, h)),
          namespace_kept child h
              ∙ k
              ∙ ap (λ l. l ++ (n ∷ [])) (sym (namespace_kept j (child_of-lt s j n child e))),
        )

    widened-IsValid : IsValid widened
    unfolding IsValid
    widened-IsValid j n child e = elim (child_of-widened j n child e) [
      | inl (a, b, c) ↦ (
        rw
            (
              c,
              length-append (set s.groups id adopted) (child_group ∷ []),
              length-set s.groups id adopted,
            )
            (omega arith),
        ap (namespace_of widened) c
            ∙ namespace_new
            ∙ ap₂ (λ x y. x ++ (y ∷ [])) (sym (namespace_kept id in_range)) (sym b)
            ∙ ap (λ i. namespace_of widened i ++ (n ∷ [])) (sym a),
      )
      | inr old ↦ kept_valid j n child old
    ]

    -- Making or finding a subgroup of a group in a consistent tree keeps the tree consistent; the
    -- subgroup is then found by its name, and its namespace is that of the group followed by its
    -- name.
    pub subgroup-IsValid :
        IsValid (subgroup s id self name).0
        × (get_subgroup (subgroup s id self name).0 id (name ∷ []) ≡ ok (subgroup s id self name).1)
        × (namespace_of (subgroup s id self name).0 (subgroup s id self name).1
            ≡ self.namespace ++ (name ∷ []))
    unfolding get_subgroup IsValid
    subgroup-IsValid = elim (Option-cases (self.children name)) [
      | inl e ↦ rw (subgroup-miss e) (
        widened-IsValid,
        rw (child_here name ∙ if_pos (Name_discrete name name) refl _ _, get_subgroup) refl,
        namespace_new ∙ ap (λ l. l ++ (name ∷ [])) namespace_here,
      )
      | inr (c, e) ↦
          let found : child_of s id name ≡ some c = rw (here, child_of) e in
          rw (subgroup-hit c e) (
            v,
            rw (found, get_subgroup) refl,
            (v id name c found).1 ∙ ap (λ l. l ++ (name ∷ [])) namespace_here,
          )
    ]
