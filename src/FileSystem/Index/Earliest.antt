-- ===== src/FileSystem/Index/Earliest.antt =====
-- An index by hash points at the earliest position, in whatever order the positions come.
use hotshot_query_service.Prelude.{
  Option, none, some, Bool, true, false, ◌≡◌, ◌≢◌, inl, inr, refl, sym, ap, ◌∙◌, fun_ext, ite,
  arith, if◌then◌else◌, Bool-cases, Option-cases,
}
use mathlib.Core.Logic.{if_pos, if_neg}
use hotshot_query_service.FileSystem.Index.{insert_key, update_index_by_hash}

module _ {H P : Type 0} (dec : Discrete H) (lt : P → P → Bool) where
  -- The earlier of a new position and an entry.
  abbrev pub earlier : P → Option P → P
  earlier pos none = pos
  earlier pos (some entry) = if lt pos entry then pos else entry

  -- What is read after an update.
  pub lookup-update :
      (index : H → Option P) (hash : H) (pos : P) (j : H)
      → update_index_by_hash dec lt index hash pos j
        ≡ ite (dec j hash) (some (earlier pos (index hash))) (index j)
  unfolding update_index_by_hash insert_key
  lookup-update index hash pos j = elim (dec j hash) [
    | yes p ↦ elim (Option-cases (index hash)) [
      | inl e ↦ ground (arith, p, e)
      | inr (entry, e) ↦ elim (Bool-cases (lt pos entry)) [
        | inl f ↦ ground (arith, p, e, f)
        | inr f ↦ ground (arith, p, e, f)
      ]
    ]
    | no n ↦ elim (Option-cases (index hash)) [
      | inl e ↦ ground (arith, n, e)
      | inr (entry, e) ↦ elim (Bool-cases (lt pos entry)) [
        | inl f ↦ ground (arith, n, e, f)
        | inr f ↦ ground (arith, n, e, f)
      ]
    ]
  ]

  -- `<` is a strict linear order.
  module _ (asym : (p q : P) → lt p q ≡ true → lt q p ≡ false)
      (trans : (p q r : P) → lt p q ≡ true → lt q r ≡ true → lt p r ≡ true)
      (total : (p q : P) → lt p q ≡ false → lt q p ≡ false → p ≡ q) where
    earlier_comm : (p q : P) → earlier p (some q) ≡ earlier q (some p)
    earlier_comm p q = elim (Bool-cases (lt p q)) [
      | inl e ↦ rw (e, asym p q e) refl
      | inr e ↦ elim (Bool-cases (lt q p)) [
        | inl f ↦ rw (e, f) refl
        | inr f ↦ rw (e, f) (sym (total p q e f))
      ]
    ]

    before_trans : (p q r : P) → lt p r ≡ true → lt q r ≡ false → lt q p ≡ false
    before_trans p q r e f = elim (Bool-cases (lt q p)) [
      | inl g ↦ g ∙ sym (trans q p r g e) ∙ f
      | inr g ↦ g
    ]

    earlier_left_comm :
        (p q : P) (o : Option P) → earlier q (some (earlier p o)) ≡ earlier p (some (earlier q o))
    earlier_left_comm p q none = earlier_comm q p
    earlier_left_comm p q (some r) = elim (Bool-cases (lt p r)) [
      | inl e ↦ elim (Bool-cases (lt q r)) [
        | inl f ↦ rw (e, f) (earlier_comm q p)
        | inr f ↦ rw (e, f, before_trans p q r e f) (rw e refl)
      ]
      | inr e ↦ elim (Bool-cases (lt q r)) [
        | inl f ↦ rw (e, f, before_trans q p r f e) refl
        | inr f ↦ rw (e, f, e) refl
      ]
    ]

    hit :
        (index : H → Option P) (hash : H) (pos : P) (j : H)
        → j ≡ hash
        → update_index_by_hash dec lt index hash pos j ≡ some (earlier pos (index j))
    hit index hash pos j e =
        lookup-update index hash pos j
        ∙ if_pos (dec j hash) e _ _
        ∙ ap (λ i. some (earlier pos (index i))) (sym e)

    miss :
        (index : H → Option P) (hash : H) (pos : P) (j : H)
        → j ≢ hash
        → update_index_by_hash dec lt index hash pos j ≡ index j
    miss index hash pos j n = lookup-update index hash pos j ∙ if_neg (dec j hash) n _ _

    -- For positions in a strict linear order, two updates of an index by hash give the same index
    -- in either order.
    pub update_comm :
        (index : H → Option P) (h k : H) (p q : P)
        → update_index_by_hash dec lt (update_index_by_hash dec lt index h p) k q
          ≡ update_index_by_hash dec lt (update_index_by_hash dec lt index k q) h p
    update_comm index h k p q = fun_ext λ j.
        let once = update_index_by_hash dec lt index h p in
        let twin = update_index_by_hash dec lt index k q in
        elim (dec j h) [
          | yes a ↦ elim (dec j k) [
            | yes b ↦
                hit once k q j b
                ∙ ap (λ o. some (earlier q o)) (hit index h p j a)
                ∙ ap some (earlier_left_comm p q (index j))
                ∙ sym (hit twin h p j a ∙ ap (λ o. some (earlier p o)) (hit index k q j b))
            | no b ↦
                miss once k q j b
                ∙ hit index h p j a
                ∙ sym (hit twin h p j a ∙ ap (λ o. some (earlier p o)) (miss index k q j b))
          ]
          | no a ↦ elim (dec j k) [
            | yes b ↦
                hit once k q j b
                ∙ ap (λ o. some (earlier q o)) (miss index h p j a)
                ∙ sym (miss twin h p j a ∙ hit index k q j b)
            | no b ↦
                miss once k q j b
                ∙ miss index h p j a
                ∙ sym (miss twin h p j a ∙ miss index k q j b)
          ]
        ]
