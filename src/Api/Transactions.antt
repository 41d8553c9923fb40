-- ===== src/Api/Transactions.antt =====
-- What a request for a transaction (`gettransaction` of src/availability.rs) is answered on the data
-- source of src/data_source/fs.rs.
use hotshot_query_service.Prelude.{
  ℕ, ◌^◌, ◌<◌, Option, none, some, Result, ok, err, error, ◌≡◌, refl, sym, ◌∙◌, ap, ◌⊎◌, inl, inr,
  arith, Result-cases, Option-cases, Fault, get_elem?,
}
use hotshot_query_service.NodeTypes.{NodeTypes}
use hotshot_query_service.Errors.{QueryError, not_found_error}
use hotshot_query_service.AppendLog.{AppendLogLaws}
use hotshot_query_service.Availability.Payload
use hotshot_query_service.Availability.QueryData.{
  BlockQueryData, TransactionQueryData, block_transaction, block_height,
}
use hotshot_query_service.Api.{file_queries}
use hotshot_query_service.FileSystem.Defs.{Storage, FileSystemDataSource, number}
use hotshot_query_service.FileSystem.Queries.{get_block, get_block_with_transaction}
use hotshot_query_service.FileSystem.Stored.{answer}
use hotshot_query_service.FileSystem.Transactions.{at-somes}
use hotshot_query_service.FileSystem.Transactions.Blocks.{all_indexed-Source}
use hotshot_query_service.FileSystem.Transactions.Places.{
  get_elem?-bounded, answer-ok, IsServing, StandsAt, blocks, with_proof, block_at, valid,
}
use hotshot_query_service.FileSystem.Flatten.{somes}
use hotshot_query_service.Api.Errors.{
  Error, query_transaction, query_block, invalid_transaction_index,
}
use hotshot_query_service.Api.Handlers.{
  RequestParams, transaction_by_height, find_transaction, handle_gettransaction,
}

some_injective : {A : Type 0} {a b : A} → some a ≡ some b → a ≡ b
some_injective e = cc e

module _ (N : NodeTypes) {E : Type 0} (S : Storage N E) (lv : AppendLogLaws S.leaves)
    (bv : AppendLogLaws S.blocks) (ds : FileSystemDataSource N S) where
  -- How a request names a transaction: by its hash, or by the height of its block and its number.
  pub data TransactionId : Type 0 where
    by_hash : N.TransactionHash → TransactionId
    by_position : ℕ → ℕ → TransactionId

  abbrev pub Asks : {R : Type 0} → RequestParams N R → TransactionId → Type 0
  Asks req (by_hash h) = req.opt_transaction_hash ≡ ok (some h)
  Asks req (by_position n i) =
      (req.opt_transaction_hash ≡ ok none) × (req.height ≡ ok n) × (req.index ≡ ok i) × n < 2 ^ 64

  -- What the answer says about the blocks of the data source.
  abbrev pub IsAnswer :
      {R : Type 0} → TransactionId → Result (Fault (Error N R)) (TransactionQueryData N) → Type 0
  IsAnswer (by_hash h) r =
      ((tx : TransactionQueryData N) × (n : ℕ) × (i : ℕ) × (r ≡ ok tx)
        × StandsAt N S lv bv ds n i tx
        × (tx.hash ≡ h))
      ⊎ ((r ≡ err (error (query_transaction not_found_error h)))
          × ¬ (
              (tx : TransactionQueryData N) × (n : ℕ) × (i : ℕ) × StandsAt N S lv bv ds n i tx
              × (tx.hash ≡ h)))
  IsAnswer (by_position n i) r =
      ((tx : TransactionQueryData N) × (r ≡ ok tx) × StandsAt N S lv bv ds n i tx)
      ⊎ (((b : BlockQueryData N) × (get_elem? (blocks N S lv bv ds) n ≡ some (some b))
            × (get_elem? (N.iter b.payload) i ≡ none)
            × (r ≡ err (error (invalid_transaction_index n i))))
          ⊎ ((e : QueryError) × (answer (blocks N S lv bv ds) n ≡ err e)
              × (r ≡ err (error (query_block e (number n))))))

  module _ {R : Type 0} (req : RequestParams N R) where
    abbrev pub answered : Result (Fault (Error N R)) (TransactionQueryData N)
    answered = handle_gettransaction N (file_queries N S) ds req

    abbrev found : Result (Error N R) (BlockQueryData N × N.TransactionIndex)
    found = find_transaction N (file_queries N S) ds req

    transaction_of : BlockQueryData N → N.Transaction → N.InclusionProof → TransactionQueryData N
    transaction_of b tx p = record {
      transaction = tx;
      block_hash = b.hash;
      proof = p;
      height = block_height N b;
      hash = N.commit_transaction tx;
    }

    not_found : (e : Error N R) → found ≡ err e → answered ≡ err (error e)
    unfolding handle_gettransaction
    not_found e f = rw (f, answered, handle_gettransaction) refl

    -- Once a place has been found, the transaction there is the answer.
    answer_at :
        (n i : ℕ) (b : BlockQueryData N) (ix : N.TransactionIndex)
        → IsServing N S lv bv ds
        → found ≡ ok (b, ix)
        → get_elem? (blocks N S lv bv ds) n ≡ some (some b)
        → get_elem? (N.iter b.payload) i ≡ some ix
        → (tx : N.Transaction) × (p : N.InclusionProof) × (N.transaction_with_proof b.payload ix
            ≡ some (tx, p))
          × (answered ≡ ok (transaction_of b tx p))
          × StandsAt N S lv bv ds n i (transaction_of b tx p)
    unfolding handle_gettransaction block_transaction transaction_of
    answer_at n i b ix s f at here =
        let (tx, p, e, _) = valid N S lv bv ds n i b ix s at here in
        (
          tx,
          p,
          e,
          rw (f, answered, handle_gettransaction, e, block_transaction) refl,
          (b, ix, at, here, e, refl, s.placed n b at, refl),
        )

    by_position-IsAnswer :
        (n i : ℕ)
        → IsServing N S lv bv ds
        → Asks req (by_position n i)
        → IsAnswer (by_position n i) answered
    unfolding find_transaction transaction_by_height Payload.nth
    by_position-IsAnswer n i s (none_hash, height, index, small) =
        elim (Result-cases (answer (blocks N S lv bv ds) n)) [
          | inr (e, f) ↦
              let g = block_at N S lv bv ds n s small ∙ f in
              inr (
                inr (
                  e,
                  f,
                  not_found (query_block e (number n)) (
                      rw (none_hash, found, find_transaction, height, g, transaction_by_height)
                        refl),
                ))
          | inl (b, f) ↦
              let g = block_at N S lv bv ds n s small ∙ f in
              let at = answer-ok (blocks N S lv bv ds) n b f in
              elim (Option-cases (get_elem? (N.iter b.payload) i)) [
                | inl k ↦ inr (
                    inl (
                      b,
                      at,
                      k,
                      not_found (invalid_transaction_index n i) (
                          rw
                            (
                              none_hash, found, find_transaction, height, g, index, k,
                              transaction_by_height,
                            )
                            refl),
                    ))
                | inr (ix, k) ↦
                    let f' : found ≡ ok (b, ix) =
                      rw
                        (
                          none_hash, found, find_transaction, height, g, index, k,
                          transaction_by_height,
                        )
                        refl in
                    let (tx, p, _, done, stands) = answer_at n i b ix s f' at k in
                    inl (transaction_of b tx p, done, stands)
              ]
        ]

    by_hash_missing-IsAnswer :
        (h : N.TransactionHash)
        → IsServing N S lv bv ds
        → req.opt_transaction_hash ≡ ok (some h)
        → ds.index_by_txn_hash h ≡ none
        → IsAnswer (by_hash h) answered
    unfolding find_transaction get_block_with_transaction
    by_hash_missing-IsAnswer h s asked e = inr (
      not_found (query_transaction not_found_error h)
          (rw (asked, found, find_transaction, e, get_block_with_transaction) refl),
      λ (tx, n, i, (b, ix, at, here, f, _, _, hashed), same).
          let (tx', p, f', (q, has)) = valid N S lv bv ds n i b ix s at here in
          let same_tx : tx' ≡ tx.transaction =
            ap (λ (t : N.Transaction × N.InclusionProof). t.0) (some_injective (sym f' ∙ f)) in
          let hashed' : N.commit_transaction tx' ≡ h =
            ap N.commit_transaction same_tx ∙ sym hashed ∙ same in
          absurd (ground (arith, sym e ∙ ap ds.index_by_txn_hash (sym hashed') ∙ has)),
    )

    by_hash_found-IsAnswer :
        (h : N.TransactionHash) (height : ℕ) (ix : N.TransactionIndex)
        → IsServing N S lv bv ds
        → req.opt_transaction_hash ≡ ok (some h)
        → ds.index_by_txn_hash h ≡ some (height, ix)
        → IsAnswer (by_hash h) answered
    unfolding find_transaction get_block_with_transaction transaction_of
    by_hash_found-IsAnswer h height ix s asked e =
        let built = s.is_indexed.txns in
        let (k, b, i, tx, at, same_height, here, f, hashed) =
          all_indexed-Source N S (somes (blocks N S lv bv ds)) h (height, ix) (ap (λ r. r.1) built)
            (ap (λ (r : (N.TransactionHash → Option (ℕ × N.TransactionIndex)) × _). r.0 h) built
              ∙ e) in
        let (n, stored) = at-somes (blocks N S lv bv ds) k b at in
        let placed : height ≡ n = sym same_height ∙ s.placed n b stored in
        let small : n < 2 ^ 64 =
          omega (arith, get_elem?-bounded (blocks N S lv bv ds) n (some b) stored, s.small) in
        let g : get_block N S ds (number height) ≡ ok b =
          ap (λ m. get_block N S ds (number m)) placed
          ∙ block_at N S lv bv ds n s small
          ∙ rw (stored) refl in
        let found_here : found ≡ ok (b, ix) =
          rw (asked, found, find_transaction, e, g, get_block_with_transaction) refl in
        let (tx', p, f', done, stands) = answer_at n i b ix s found_here stored here in
        let (q, f'') = with_proof N S lv bv ds b.payload ix tx f in
        let same_tx : tx' ≡ tx =
          ap (λ (t : N.Transaction × N.InclusionProof). t.0) (some_injective (sym f' ∙ f'')) in
        inl (transaction_of b tx' p, n, i, done, stands, ap N.commit_transaction same_tx ∙ hashed)

    -- On a data source on files that has a well-formed log of fewer than 2^64 - 1 blocks with
    -- everything in front of its cache in storage, each block at its height, and the indices of
    -- its objects, a request for a transaction does not panic. By a hash it ends with a
    -- transaction of that hash that stands in a stored block, or, only if no stored block has one,
    -- with the error that it is not found. With no hash, by a height below 2^64 and a number, it
    -- ends with the transaction of that number in the block at that height, with the error of an
    -- invalid index if that block has no such number, or with the error that a look at that height
    -- of the stored blocks gives.
    pub handle_gettransaction_lem :
        (id : TransactionId) → IsServing N S lv bv ds → Asks req id → IsAnswer id answered
    handle_gettransaction_lem (by_hash h) s asked = elim (Option-cases (ds.index_by_txn_hash h)) [
      | inl e ↦ by_hash_missing-IsAnswer h s asked e
      | inr ((height, ix), e) ↦ by_hash_found-IsAnswer h height ix s asked e
    ]
    handle_gettransaction_lem (by_position n i) s asked = by_position-IsAnswer n i s asked
