-- ===== src/Availability/Payload/ByHash.antt =====
-- Looking transactions up by hash and by position, in the provided methods of `QueryablePayload`.
use hotshot_query_service.Prelude.{
  zero, suc, ℕ, List, [], ◌∷◌, none, some, Bool, true, false, ◌≡◌, inl, inr, Option-cases,
  Bool-cases, arith, get_elem?, ap, ◌<◌, suc, sym, ◌∙◌,
}
use mathlib.Core.Logic.{if_pos}
use hotshot_query_service.NodeTypes.{NodeTypes}
use hotshot_query_service.Availability.Payload.{
  find, transaction, has_hash, by_hash, transaction_by_hash, transaction_by_hash_with_proof,
}

module _ {A : Type 0} (p : A → Bool) where
  -- The element stands somewhere in the list, passes the test, and none in front of it does.
  abbrev pub IsFirst : List A → A → Type 0
  IsFirst xs x =
      (i : ℕ) × (get_elem? xs i ≡ some x)
      × (p x ≡ true)
      × ((j : ℕ) (y : A) → j < i → get_elem? xs j ≡ some y → p y ≡ false)

  find-IsFirst : (xs : List A) (x : A) → find p xs ≡ some x → IsFirst xs x
  unfolding find
  find-IsFirst [] x e = cc
  find-IsFirst (y ∷ xs) x e = elim (Bool-cases (p y)) [
    | inl hit ↦
        let same : y ≡ x = ground arith in
        (0, ap some same, ap p (sym same) ∙ hit, λ j z lt. absurd (omega arith))
    | inr miss ↦
        let (i, at, good, before) = find-IsFirst xs x (ground arith) in
        (suc i, at, good, earlier i before miss)
  ]
    where
      earlier :
          (i : ℕ)
          → ((j : ℕ) (z : A) → j < i → get_elem? xs j ≡ some z → p z ≡ false)
          → p y ≡ false
          → (j : ℕ) (z : A) → j < suc i
          → get_elem? (y ∷ xs) j ≡ some z
          → p z ≡ false
      earlier i before miss zero z lt q = let same : y ≡ z = cc in ap p (sym same) ∙ miss
      earlier i before miss (suc j) z lt q = before j z (omega arith) q

  find-none :
      (xs : List A) → find p xs ≡ none → (j : ℕ) (y : A) → get_elem? xs j ≡ some y → p y ≡ false
  unfolding find
  find-none [] e j y at = cc
  find-none (x ∷ xs) e zero y at = let same : x ≡ y = cc in ap p (sym same) ∙ ground arith
  find-none (x ∷ xs) e (suc j) y at = find-none xs (ground arith) j y at

module _ (N : NodeTypes) (payload : N.Payload) (hash : N.TransactionHash) where
  -- A transaction with the hash, at the index.
  abbrev pub HasHash : N.TransactionIndex → Type 0
  HasHash ix =
      (tx : N.Transaction) × (transaction N payload ix ≡ some tx) × (N.commit_transaction tx ≡ hash)

  has_hash_sound : (ix : N.TransactionIndex) → has_hash N payload hash ix ≡ true → HasHash ix
  unfolding has_hash
  has_hash_sound ix e = ground arith

  has_hash_complete : (ix : N.TransactionIndex) → HasHash ix → has_hash N payload hash ix ≡ true
  unfolding has_hash
  has_hash_complete ix (tx, e, c) =
      rw (e, has_hash) (if_pos (N.dec_transaction_hash (N.commit_transaction tx) hash) c true false)

  -- What `by_hash` returns is an index of the payload whose transaction has the hash, and no index
  -- in front of it has one. If it returns nothing, no index of the payload has one.
  pub by_hash_lem :
      ((ix : N.TransactionIndex)
        → by_hash N payload hash ≡ some ix
        → (i : ℕ) × (get_elem? (N.iter payload) i ≡ some ix)
          × HasHash ix
          × ((j : ℕ) (jx : N.TransactionIndex)
              → j < i
              → get_elem? (N.iter payload) j ≡ some jx
              → ¬ HasHash jx))
      × (by_hash N payload hash ≡ none
          → (j : ℕ) (jx : N.TransactionIndex) → get_elem? (N.iter payload) j ≡ some jx
          → ¬ HasHash jx)
  unfolding by_hash
  by_hash_lem = (
    λ ix e.
        let (i, at, good, before) = find-IsFirst (has_hash N payload hash) (N.iter payload) ix e in
        (
          i,
          at,
          has_hash_sound ix good,
          λ j jx lt q h. let no_hash = before j jx lt q in let has = has_hash_complete jx h in cc,
        ),
    λ e j jx at h.
        let no_hash = find-none (has_hash N payload hash) (N.iter payload) e j jx at in
        let has = has_hash_complete jx h in cc,
  )

  with_proof :
      (ix : N.TransactionIndex) (tx : N.Transaction)
      → transaction N payload ix ≡ some tx
      → (p : N.InclusionProof) × (N.transaction_with_proof payload ix ≡ some (tx, p))
  unfolding transaction
  with_proof ix tx e = elim (Option-cases (N.transaction_with_proof payload ix)) [
    | inl none_there ↦ absurd (ground arith)
    | inr ((tx', p), there) ↦
        let same : tx' ≡ tx = ground arith in (p, there ∙ ap (λ t. some (t, p)) same)
  ]

  -- A transaction that is returned by its hash has that hash, and the lookup with a proof returns
  -- the same transaction.
  pub transaction_by_hash_lem :
      (tx : N.Transaction)
      → transaction_by_hash N payload hash ≡ some tx
      → (N.commit_transaction tx ≡ hash)
        × ((p : N.InclusionProof) × (transaction_by_hash_with_proof N payload hash ≡ some (tx, p)))
  unfolding transaction_by_hash transaction_by_hash_with_proof
  transaction_by_hash_lem tx e = elim (Option-cases (by_hash N payload hash)) [
    | inl none_there ↦ absurd (ground arith)
    | inr (ix, there) ↦
        let found : transaction N payload ix ≡ some tx = rw there at e in
        let (_, _, (tx', e', c), _) = by_hash_lem.0 ix there in
        let same : tx' ≡ tx = cc in
        let (p, proved) = with_proof ix tx found in
        (ap N.commit_transaction (sym same) ∙ c, (p, rw there proved))
  ]
