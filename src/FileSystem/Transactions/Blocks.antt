-- ===== src/FileSystem/Transactions/Blocks.antt =====
-- The index of transactions over all the blocks (`index_blocks` of FileSystem/Open, the loop of
-- src/data_source/fs.rs over the stored blocks).
use hotshot_query_service.Prelude.{
  ℕ, zero, suc, none, some, List, [], ◌∷◌, ok, ◌≡◌, refl, sym, inl, inr, subst, get_elem?, arith,
  Result-cases,
}
use hotshot_query_service.NodeTypes.{NodeTypes}
use hotshot_query_service.Availability.Payload.{transaction}
use hotshot_query_service.Availability.QueryData.{BlockQueryData, block_height}
use hotshot_query_service.FileSystem.Defs.{Storage, index_transactions}
use hotshot_query_service.FileSystem.Open.{index_blocks}
use hotshot_query_service.FileSystem.Transactions.{
  HasEntry, Place, Txns, indexed, Succeeds, indexed-keeps, indexed-has, indexed-AllEntries,
}

some_injective : {A : Type 0} {a b : A} → some a ≡ some b → a ≡ b
some_injective e = cc e

module _ (N : NodeTypes) {E : Type 0} (S : Storage N E) where
  abbrev pub all_indexed : Txns N S → List (BlockQueryData N) → Txns N S
  all_indexed m bs = (index_blocks N S m bs).0

  abbrev pub AllSucceed : Txns N S → List (BlockQueryData N) → Type 0
  AllSucceed m bs = (index_blocks N S m bs).1 ≡ ok tt

  abbrev with_block : Txns N S → BlockQueryData N → Txns N S
  with_block m b = indexed N S (block_height N b) b.payload (N.iter b.payload) m

  block_step :
      (m : Txns N S) (b : BlockQueryData N) (bs : List (BlockQueryData N))
      → AllSucceed m (b ∷ bs)
      → Succeeds N S (block_height N b) b.payload (N.iter b.payload) m
        × AllSucceed (with_block m b) bs
        × (all_indexed m (b ∷ bs) ≡ all_indexed (with_block m b) bs)
  unfolding index_blocks
  block_step m b bs good =
      let p = index_transactions N S (block_height N b) b.payload (N.iter b.payload) m in
      elim (Result-cases p.1) [
        | inl (u, e) ↦ (e, rw (e, index_blocks) at good, rw (e, all_indexed, index_blocks) refl)
        | inr (f, e) ↦ absurd (ground (arith, rw (e, index_blocks) at good))
      ]

  all_indexed-keeps :
      (m : Txns N S) (bs : List (BlockQueryData N)) (h : N.TransactionHash)
      → AllSucceed m bs
      → HasEntry m h
      → HasEntry (all_indexed m bs) h
  unfolding index_blocks
  all_indexed-keeps m [] h good has = has
  all_indexed-keeps m (b ∷ bs) h good has =
      let (one, rest, same) = block_step m b bs good in
      subst (λ (f : Txns N S). HasEntry f h) (sym same)
        (all_indexed-keeps (with_block m b) bs h rest
          (indexed-keeps N S (block_height N b) b.payload (N.iter b.payload) m h one has))

  -- Each index of a block has a transaction, and its hash has an entry.
  pub all_indexed-has :
      (m : Txns N S) (bs : List (BlockQueryData N)) (k : ℕ) (b : BlockQueryData N) (i : ℕ)
      (ix : N.TransactionIndex)
      → AllSucceed m bs
      → get_elem? bs k ≡ some b
      → get_elem? (N.iter b.payload) i ≡ some ix
      → (tx : N.Transaction) × (transaction N b.payload ix ≡ some tx)
        × HasEntry (all_indexed m bs) (N.commit_transaction tx)
  all_indexed-has m [] k b i ix good at here = absurd (ground (arith, at))
  all_indexed-has m (x ∷ bs) zero b i ix good at here =
      let (one, rest, same) = block_step m x bs good in
      let b≡ : x ≡ b = some_injective at in
      let here' : get_elem? (N.iter x.payload) i ≡ some ix =
        subst (λ (y : BlockQueryData N). get_elem? (N.iter y.payload) i ≡ some ix) (sym b≡) here in
      let (tx, e, has) =
        indexed-has N S (block_height N x) x.payload (N.iter x.payload) m i ix one here' in
      (
        tx,
        subst (λ (y : BlockQueryData N). transaction N y.payload ix ≡ some tx) b≡ e,
        subst (λ (f : Txns N S). HasEntry f (N.commit_transaction tx)) (sym same)
            (all_indexed-keeps (with_block m x) bs (N.commit_transaction tx) rest has),
      )
  all_indexed-has m (x ∷ bs) (suc k) b i ix good at here =
      let (one, rest, same) = block_step m x bs good in
      let (tx, e, has) = all_indexed-has (with_block m x) bs k b i ix rest at here in
      (tx, e, subst (λ (f : Txns N S). HasEntry f (N.commit_transaction tx)) (sym same) has)

  -- The place of a transaction with the hash in one of the blocks.
  abbrev pub Source : List (BlockQueryData N) → N.TransactionHash → Place N S → Type 0
  Source bs h p =
      (k : ℕ) × (b : BlockQueryData N) × (i : ℕ) × (tx : N.Transaction) × (get_elem? bs k ≡ some b)
      × (block_height N b ≡ p.0)
      × (get_elem? (N.iter b.payload) i ≡ some p.1)
      × (transaction N b.payload p.1 ≡ some tx)
      × (N.commit_transaction tx ≡ h)

  later :
      (x : BlockQueryData N) (bs : List (BlockQueryData N)) (h : N.TransactionHash) (p : Place N S)
      → Source bs h p
      → Source (x ∷ bs) h p
  later x bs h p (k, b, i, tx, at, height, here, e, f) = (suc k, b, i, tx, at, height, here, e, f)

  module _ (P : N.TransactionHash → Place N S → Type 0) where
    all_indexed-AllEntries :
        (m : Txns N S) (bs : List (BlockQueryData N))
        → AllSucceed m bs
        → ((h : N.TransactionHash) (p : Place N S) → m h ≡ some p → P h p)
        → ((h : N.TransactionHash) (p : Place N S) → Source bs h p → P h p)
        → (h : N.TransactionHash) (p : Place N S) → all_indexed m bs h ≡ some p
        → P h p
    unfolding index_blocks
    all_indexed-AllEntries m [] good old new = old
    all_indexed-AllEntries m (b ∷ bs) good old new =
        let (one, rest, same) = block_step m b bs good in
        subst (λ (f : Txns N S). (h : N.TransactionHash) (p : Place N S) → f h ≡ some p → P h p)
          (sym same)
          (all_indexed-AllEntries (with_block m b) bs rest
            (indexed-AllEntries N S (block_height N b) b.payload P (N.iter b.payload) m one old
              (λ i ix tx at e.
                new (N.commit_transaction tx) (block_height N b, ix)
                  (zero, b, i, tx, refl, refl, at, e, refl)))
            (λ h p s. new h p (later b bs h p s)))

  -- Each entry of an index that is built from blocks is the place of a transaction with its hash.
  pub all_indexed-Source :
      (bs : List (BlockQueryData N)) (h : N.TransactionHash) (p : Place N S)
      → AllSucceed (λ _. none) bs
      → all_indexed (λ _. none) bs h ≡ some p
      → Source bs h p
  all_indexed-Source bs h p good e =
      all_indexed-AllEntries (Source bs) (λ _. none) bs good (λ k q f. absurd (ground (arith, f)))
        (λ k q s. s) h p e
