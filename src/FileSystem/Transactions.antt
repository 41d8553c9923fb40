-- ===== src/FileSystem/Transactions.antt =====
-- The index of transactions of src/data_source/fs.rs: each entry is the place of a transaction of a block
-- with that hash, and each transaction of the blocks has an entry.
pub mod Blocks
pub mod Places
use hotshot_query_service.Prelude.{
  ℕ, zero, suc, Option, none, some, List, [], ◌∷◌, ok, ◌≡◌, refl, sym, ◌∙◌, ap, inl, inr, ◌⊎◌,
  subst, get_elem?, arith, Option-cases, Bool, Bool-cases,
}
use mathlib.Core.Logic.{if_pos, if_neg}
use hotshot_query_service.NodeTypes.{NodeTypes}
use hotshot_query_service.Availability.Payload.{transaction}
use hotshot_query_service.FileSystem.Index.Earliest.{lookup-update, earlier}
use hotshot_query_service.FileSystem.Index.{update_index_by_hash}
use hotshot_query_service.FileSystem.Defs.{Storage, index_transactions, lt_position}
use hotshot_query_service.FileSystem.Flatten.{somes}

abbrev pub HasEntry : {H P : Type 0} → (H → Option P) → H → Type 0
HasEntry {H} {P} m h = (p : P) × (m h ≡ some p)

some_injective : {A : Type 0} {a b : A} → some a ≡ some b → a ≡ b
some_injective e = cc e

-- The objects of a list are those of its places.
pub at-somes :
    {T : Type 0} (xs : List (Option T)) (k : ℕ) (x : T)
    → get_elem? (somes xs) k ≡ some x
    → (n : ℕ) × (get_elem? xs n ≡ some (some x))
at-somes [] k x e = absurd (ground (arith, e))
at-somes (none ∷ xs) k x e = let (n, f) = at-somes xs k x e in (suc n, f)
at-somes (some y ∷ xs) zero x e = (zero, ap some e)
at-somes (some y ∷ xs) (suc k) x e = let (n, f) = at-somes xs k x e in (suc n, f)

pub somes-at :
    {T : Type 0} (xs : List (Option T)) (n : ℕ) (x : T)
    → get_elem? xs n ≡ some (some x)
    → (k : ℕ) × (get_elem? (somes xs) k ≡ some x)
somes-at [] n x e = absurd (ground (arith, e))
somes-at (none ∷ xs) zero x e = absurd (ground (arith, e))
somes-at (some y ∷ xs) zero x e = (zero, some_injective e)
somes-at (none ∷ xs) (suc n) x e = somes-at xs n x e
somes-at (some y ∷ xs) (suc n) x e = let (k, f) = somes-at xs n x e in (suc k, f)

module _ {H P : Type 0} (dec : Discrete H) (lt : P → P → Bool) (m : H → Option P) (h : H)
    (q : P) where
  abbrev updated : H → Option P
  updated = update_index_by_hash dec lt m h q

  update-here : HasEntry updated h
  update-here = (earlier dec lt q (m h), lookup-update dec lt m h q h ∙ if_pos (dec h h) refl _ _)

  update-keeps : (j : H) → HasEntry m j → HasEntry updated j
  update-keeps j (p, e) = elim (dec j h) [
    | yes y ↦ (earlier dec lt q (m h), lookup-update dec lt m h q j ∙ if_pos (dec j h) y _ _)
    | no n ↦ (p, lookup-update dec lt m h q j ∙ if_neg (dec j h) n _ _ ∙ e)
  ]

  -- An entry is the new one or an old one.
  update-source : (j : H) (p : P) → updated j ≡ some p → ((j ≡ h) × (p ≡ q)) ⊎ (m j ≡ some p)
  update-source j p e = elim (dec j h) [
    | no n ↦ inr (sym (if_neg (dec j h) n _ _) ∙ sym (lookup-update dec lt m h q j) ∙ e)
    | yes y ↦
        let e' : some (earlier dec lt q (m h)) ≡ some p =
          sym (if_pos (dec j h) y _ _) ∙ sym (lookup-update dec lt m h q j) ∙ e in
        elim (Option-cases (m h)) [
          | inl f ↦ inl (y, sym (some_injective (rw f at e')))
          | inr (old, f) ↦ elim (Bool-cases (lt q old)) [
            | inl g ↦ inl (y, sym (some_injective (rw (f, g) at e')))
            | inr g ↦ inr (ap m y ∙ f ∙ rw (f, g) at e')
          ]
        ]
  ]

module _ (N : NodeTypes) {E : Type 0} (S : Storage N E) where
  abbrev pub Place : Type 0
  Place = ℕ × N.TransactionIndex

  abbrev pub Txns : Type 0
  Txns = N.TransactionHash → Option Place

  module _ (height : ℕ) (payload : N.Payload) where
    abbrev pub indexed : List N.TransactionIndex → Txns → Txns
    indexed ixs m = (index_transactions N S height payload ixs m).0

    abbrev pub Succeeds : List N.TransactionIndex → Txns → Type 0
    Succeeds ixs m = (index_transactions N S height payload ixs m).1 ≡ ok tt

    abbrev with_first : N.TransactionIndex → N.Transaction → Txns → Txns
    with_first ix tx m =
        update_index_by_hash N.dec_transaction_hash (lt_position N) m (N.commit_transaction tx)
          (height, ix)

    first_step :
        (ix : N.TransactionIndex) (ixs : List N.TransactionIndex) (m : Txns)
        → Succeeds (ix ∷ ixs) m
        → (tx : N.Transaction) × (transaction N payload ix ≡ some tx)
          × Succeeds ixs (with_first ix tx m)
          × (indexed (ix ∷ ixs) m ≡ indexed ixs (with_first ix tx m))
    unfolding index_transactions
    first_step ix ixs m good = elim (Option-cases (transaction N payload ix)) [
      | inl e ↦ absurd (ground (arith, rw (e, index_transactions) at good))
      | inr (tx, e) ↦
          (tx, e, rw (e, index_transactions) at good, rw (e, indexed, index_transactions) refl)
    ]

    pub indexed-keeps :
        (ixs : List N.TransactionIndex) (m : Txns) (h : N.TransactionHash)
        → Succeeds ixs m
        → HasEntry m h
        → HasEntry (indexed ixs m) h
    unfolding index_transactions
    indexed-keeps [] m h good has = has
    indexed-keeps (ix ∷ ixs) m h good has =
        let (tx, e, rest, same) = first_step ix ixs m good in
        subst (λ (f : Txns). HasEntry f h) (sym same)
          (indexed-keeps ixs (with_first ix tx m) h rest (
            update-keeps N.dec_transaction_hash (lt_position N) m (N.commit_transaction tx)
              (height, ix) h has))

    -- Each index has a transaction, and its hash has an entry.
    pub indexed-has :
        (ixs : List N.TransactionIndex) (m : Txns) (i : ℕ) (ix : N.TransactionIndex)
        → Succeeds ixs m
        → get_elem? ixs i ≡ some ix
        → (tx : N.Transaction) × (transaction N payload ix ≡ some tx)
          × HasEntry (indexed ixs m) (N.commit_transaction tx)
    indexed-has [] m i ix good at = absurd (ground (arith, at))
    indexed-has (x ∷ ixs) m zero ix good at =
        let (tx, e, rest, same) = first_step x ixs m good in
        (
          tx,
          sym (ap (transaction N payload) (some_injective at)) ∙ e,
          subst (λ (f : Txns). HasEntry f (N.commit_transaction tx)) (sym same)
              (indexed-keeps ixs (with_first x tx m) (N.commit_transaction tx) rest (
                update-here N.dec_transaction_hash (lt_position N) m (N.commit_transaction tx)
                  (height, x))),
        )
    indexed-has (x ∷ ixs) m (suc i) ix good at =
        let (tx, _, rest, same) = first_step x ixs m good in
        let (tx', e, has) = indexed-has ixs (with_first x tx m) i ix rest at in
        (tx', e, subst (λ (f : Txns). HasEntry f (N.commit_transaction tx')) (sym same) has)

    module _ (P : N.TransactionHash → Place → Type 0) where
      -- What the entries have in common.
      abbrev pub AllEntries : Txns → Type 0
      AllEntries m = (h : N.TransactionHash) (p : Place) → m h ≡ some p → P h p

      abbrev pub AllNew : List N.TransactionIndex → Type 0
      AllNew ixs =
          (i : ℕ) (ix : N.TransactionIndex) (tx : N.Transaction)
          → get_elem? ixs i ≡ some ix
          → transaction N payload ix ≡ some tx
          → P (N.commit_transaction tx) (height, ix)

      pub indexed-AllEntries :
          (ixs : List N.TransactionIndex) (m : Txns)
          → Succeeds ixs m
          → AllEntries m
          → AllNew ixs
          → AllEntries (indexed ixs m)
      unfolding index_transactions
      indexed-AllEntries [] m good old new = old
      indexed-AllEntries (ix ∷ ixs) m good old new =
          let (tx, e, rest, same) = first_step ix ixs m good in
          subst AllEntries (sym same) (
            indexed-AllEntries ixs (with_first ix tx m) rest
              (λ h p f.
                elim (update-source N.dec_transaction_hash (lt_position N) m
                  (N.commit_transaction tx) (height, ix) h p f) [
                    | inl (a, b) ↦
                        subst (λ k. P k p) (sym a)
                          (subst (P (N.commit_transaction tx)) (sym b) (new zero ix tx refl e))
                    | inr g ↦ old h p g
                  ])
              (λ i. new (suc i)))
