-- ===== src/FileSystem/Transactions/Places.antt =====
-- Where the transactions of the blocks of a data source of src/data_source/fs.rs stand.
use hotshot_query_service.Prelude.{
  ℕ, zero, suc, ◌+◌, ◌-◌, ◌^◌, ◌≤◌, ◌<◌, Option, none, some, List, [], ◌∷◌, ◌++◌, replicate, ok,
  ◌≡◌, ◌∙◌, ap, inl, inr, arith, Option-cases, subst, get_elem?, length,
}
use hotshot_query_service.NodeTypes.{NodeTypes}
use hotshot_query_service.AppendLog.{AppendLogLaws, IsOk}
use hotshot_query_service.LedgerLog.Inv.{objects, len, length-objects}
use hotshot_query_service.LedgerLog.Contents.{IsSound, insert_at_end}
use hotshot_query_service.LedgerLog.Reads.{IsSettled, commit_version_lem}
use hotshot_query_service.LedgerLog.Defs.{insert}
use hotshot_query_service.LedgerLog.Broadcast.{IsSmall}
use hotshot_query_service.Availability.Payload
use hotshot_query_service.Availability.QueryData.{
  BlockQueryData, TransactionQueryData, block_height,
}
use hotshot_query_service.FileSystem.Defs.{
  Storage, FileSystemDataSource, number, insert_block, commit,
}
use hotshot_query_service.FileSystem.Queries.{get_block, resolve}
use hotshot_query_service.FileSystem.Reopen.{IsIndexed, insert_block-IsIndexed, kept-IsIndexed}
use hotshot_query_service.FileSystem.Stored.{answer, read_at_lem, commit_fields}
use hotshot_query_service.FileSystem.Transactions.{HasEntry, somes-at}
use hotshot_query_service.FileSystem.Transactions.Blocks.{all_indexed-has}
use hotshot_query_service.FileSystem.Flatten.{somes}

pub get_elem?-bounded :
    {A : Type 0} (xs : List A) (n : ℕ) (x : A) → get_elem? xs n ≡ some x → n < length xs
get_elem?-bounded [] n x e = absurd (ground (arith, e))
get_elem?-bounded (y ∷ xs) zero x e = omega arith
get_elem?-bounded (y ∷ xs) (suc n) x e = omega (arith, get_elem?-bounded xs n x e)

pub answer-ok :
    {T : Type 0} (xs : List (Option T)) (n : ℕ) (x : T)
    → answer xs n ≡ ok x
    → get_elem? xs n ≡ some (some x)
answer-ok xs n x e = ground (arith, e)

some_injective : {A : Type 0} {a b : A} → some a ≡ some b → a ≡ b
some_injective e = cc e

module _ (N : NodeTypes) {E : Type 0} (S : Storage N E) (lv : AppendLogLaws S.leaves)
    (bv : AppendLogLaws S.blocks) (ds : FileSystemDataSource N S) where
  abbrev pub blocks : List (Option (BlockQueryData N))
  blocks = objects S.blocks bv ds.block_storage

  -- A data source with well-formed blocks, each at its height, and with the indices of its objects.
  pub record IsServing : Type 0 where
    pub sound : IsSound S.blocks bv ds.block_storage
    pub settled : IsSettled S.blocks bv ds.block_storage
    pub small : IsSmall S.blocks bv ds.block_storage
    pub placed :
        (n : ℕ) (b : BlockQueryData N) → get_elem? blocks n ≡ some (some b) → block_height N b ≡ n
    pub is_indexed : IsIndexed N S lv bv ds

  -- The transaction is the one of number `i` in the block at `n`.
  abbrev pub StandsAt : ℕ → ℕ → TransactionQueryData N → Type 0
  StandsAt n i tx =
      (b : BlockQueryData N) × (ix : N.TransactionIndex) × (get_elem? blocks n ≡ some (some b))
      × (get_elem? (N.iter b.payload) i ≡ some ix)
      × (N.transaction_with_proof b.payload ix ≡ some (tx.transaction, tx.proof))
      × (tx.block_hash ≡ b.hash)
      × (tx.height ≡ n)
      × (tx.hash ≡ N.commit_transaction tx.transaction)

  pub with_proof :
      (payload : N.Payload) (ix : N.TransactionIndex) (tx : N.Transaction)
      → Payload.transaction N payload ix ≡ some tx
      → (p : N.InclusionProof) × (N.transaction_with_proof payload ix ≡ some (tx, p))
  unfolding Payload.transaction
  with_proof payload ix tx e = elim (Option-cases (N.transaction_with_proof payload ix)) [
    | inl f ↦ absurd (ground (arith, e, f))
    | inr ((tx', p), f) ↦ (p, f ∙ ap (λ t. some (t, p)) (some_injective (rw f at e)))
  ]

  pub block_at : (n : ℕ) → IsServing → n < 2 ^ 64 → get_block N S ds (number n) ≡ answer blocks n
  unfolding get_block resolve
  block_at n s small = read_at_lem S.blocks bv ds.block_storage n s.sound s.settled small

  -- A place in a block of the data source has a transaction, which the index has.
  pub valid :
      (n i : ℕ) (b : BlockQueryData N) (ix : N.TransactionIndex)
      → IsServing
      → get_elem? blocks n ≡ some (some b)
      → get_elem? (N.iter b.payload) i ≡ some ix
      → (tx : N.Transaction) × (p : N.InclusionProof) × (N.transaction_with_proof b.payload ix
          ≡ some (tx, p))
        × HasEntry ds.index_by_txn_hash (N.commit_transaction tx)
  valid n i b ix s at here =
      let (k, e) = somes-at blocks n b at in
      let built = s.is_indexed.txns in
      let (tx, f, has) =
        all_indexed-has N S (λ _. none) (somes blocks) k b i ix (ap (λ r. r.1) built) e here in
      let (p, g) = with_proof b.payload ix tx f in
      (
        tx,
        p,
        g,
        subst
            (λ (m : N.TransactionHash → Option (ℕ × N.TransactionIndex)).
              HasEntry m (N.commit_transaction tx))
            (ap (λ r. r.0) built) has,
      )

-- Blocks of a padded list stand at their heights.
extended_placed :
    (N : NodeTypes) (m : ℕ) (xs : List (Option (BlockQueryData N))) (k : ℕ) (b : BlockQueryData N)
    → block_height N b ≡ m + length xs + k
    → ((n : ℕ) (x : BlockQueryData N) → get_elem? xs n ≡ some (some x) → block_height N x ≡ m + n)
    → (n : ℕ) (x : BlockQueryData N)
    → get_elem? (xs ++ (replicate k none ++ (some b ∷ []))) n ≡ some (some x)
    → block_height N x ≡ m + n
extended_placed N m [] zero b e old zero x at =
    omega (arith, ap (block_height N) (some_injective (some_injective at)), e)
extended_placed N m [] zero b e old (suc n) x at = absurd (ground (arith, at))
extended_placed N m [] (suc k) b e old zero x at = absurd (ground (arith, at))
extended_placed N m [] (suc k) b e old (suc n) x at =
    extended_placed N (suc m) [] k b (omega (arith, e)) (λ i y f. absurd (ground (arith, f))) n x at
    ∙ omega arith
extended_placed N m (y ∷ xs) k b e old zero x at = old zero x at
extended_placed N m (y ∷ xs) k b e old (suc n) x at =
    extended_placed N (suc m) xs k b (omega (arith, e)) (λ i z f. omega (arith, old (suc i) z f)) n
      x at
    ∙ omega arith

module _ (N : NodeTypes) {E : Type 0} (S : Storage N E) (lv : AppendLogLaws S.leaves)
    (bv : AppendLogLaws S.blocks) (ds : FileSystemDataSource N S) (b : BlockQueryData N) where
  abbrev inserted : FileSystemDataSource N S
  inserted = (insert_block N S ds b).0

  abbrev committed : FileSystemDataSource N S
  committed = (commit N S inserted).0

  -- What a successful insert of a block does to the two logs.
  insert_block_logs :
      IsOk (insert_block N S ds b).1
      → IsOk (insert S.blocks ds.block_storage (block_height N b) b).1
        × (inserted.block_storage ≡ (insert S.blocks ds.block_storage (block_height N b) b).0)
        × (inserted.leaf_storage ≡ ds.leaf_storage)
  unfolding insert_block
  insert_block_logs good = ground arith

  -- A data source that serves its transactions still does after a successful insert of a block at
  -- the end of the chain or behind it, and a commit.
  pub insert_block-IsServing :
      IsServing N S lv bv ds
      → IsSound S.leaves lv ds.leaf_storage
      → len S.blocks bv ds.block_storage ≤ block_height N b
      → IsOk (insert_block N S ds b).1
      → IsOk (commit N S inserted).1
      → IsSmall S.blocks bv committed.block_storage
      → IsServing N S lv bv committed
  insert_block-IsServing s leaves_sound far good done small =
      let (one, e, f) = insert_block_logs good in
      let log = (insert S.blocks ds.block_storage (block_height N b) b).0 in
      let (grew, sound) =
        insert_at_end S.blocks bv ds.block_storage (block_height N b) b far one s.sound in
      let q = insert_block-IsIndexed N S lv bv ds b far good s.sound s.is_indexed in
      let c = commit_fields N S inserted done in
      let (same, sound', settled) =
        commit_version_lem S.blocks bv inserted.block_storage c.1 (rw e sound) in
      let (same_leaves, _, _) =
        commit_version_lem S.leaves lv inserted.leaf_storage c.0 (rw f leaves_sound) in
      let same' : blocks N S lv bv committed ≡ objects S.blocks bv log =
        ap (objects S.blocks bv) c.3 ∙ same ∙ ap (objects S.blocks bv) e in
      let total : length (blocks N S lv bv ds) ≡ len S.blocks bv ds.block_storage =
        omega (arith, length-objects S.blocks bv ds.block_storage s.sound.0, s.sound.0.total) in
      record {
        sound = rw (c.3) sound';
        settled = rw (c.3) settled;
        small = small;
        placed = λ n x at.
            extended_placed N 0 (blocks N S lv bv ds)
              (block_height N b - len S.blocks bv ds.block_storage) b (omega (arith, total))
              (λ i y f. omega (arith, s.placed i y f)) n x
              (subst (λ xs. get_elem? xs n ≡ some (some x)) (same' ∙ grew) at)
            ∙ omega arith;
        is_indexed =
            kept-IsIndexed N S lv bv inserted committed
              (record { by_leaf = c.4; by_block = c.5; by_proposer = c.6 }) c.7
              (ap (objects S.leaves lv) c.2 ∙ same_leaves) (ap (objects S.blocks bv) c.3 ∙ same) q;
      }
