-- ===== src/FileSystem/Stored.antt =====
-- What `insert_leaf`, `insert_block` and `commit` of src/data_source/fs.rs store, and how it is
-- found again.
use hotshot_query_service.Prelude.{
  ℕ, ◌+◌, ◌-◌, ◌^◌, ◌≤◌, ◌<◌, ◌≡◌, refl, ap, ◌∙◌, inl, inr, Option, none, some, List, [], ◌∷◌, ◌++◌,
  length, get_elem?, replicate, ok, err, Result-cases, context, ◌>>=◌, arith, length-replicate,
  get_elem?-append_right, get_elem?-append_left, get_elem?-replicate,
}
use hotshot_query_service.NodeTypes.{NodeTypes}
use hotshot_query_service.Errors.{QueryResult, not_found_error, missing}
use mathlib.Core.Logic.{if_pos}
use hotshot_query_service.LedgerLog.Reads.{commit_version_lem}
use hotshot_query_service.LedgerLog.Contents.{insert_at_end}
use hotshot_query_service.AppendLog.{AppendLog, AppendLogLaws, IsOk}
use hotshot_query_service.LedgerLog.Defs.{LedgerLog, insert, commit_version}
use hotshot_query_service.LedgerLog.Inv.{objects, len, length-objects}
use hotshot_query_service.LedgerLog.Contents.{IsSound}
use hotshot_query_service.LedgerLog.Reads.{IsSettled, nth-iter}
use hotshot_query_service.Availability.QueryData.{LeafQueryData, leaf_height, leaf_hash}
use hotshot_query_service.FileSystem.Index.{insert_key}
use hotshot_query_service.FileSystem.Defs.{
  Storage, number, hash, FileSystemDataSource, insert_leaf, index_leaf, commit,
}
use hotshot_query_service.FileSystem.Queries.{read_at, get_leaf, resolve}

-- What a query for a position answers about a list of objects.
abbrev pub answer : {T : Type 0} → List (Option T) → ℕ → QueryResult T
answer objects n = do entry ← context not_found_error (get_elem? objects n); context missing entry

abbrev no_object : (T : Type 0) → Option T
no_object T = none

module _ {T : Type 0} (xs : List (Option T)) (k : ℕ) (x : T) where
  -- A list that has been padded by `k` placeholders and then extended by an object.
  abbrev padded_with : List (Option T)
  padded_with = xs ++ (replicate k none ++ (some x ∷ []))

  answer_last : (h : ℕ) → h ≡ length xs + k → answer padded_with h ≡ ok x
  answer_last h e =
      let at : get_elem? padded_with h ≡ some (some x) =
        get_elem?-append_right xs (replicate k none ++ (some x ∷ [])) h k e
        ∙ get_elem?-append_right (replicate k none) (some x ∷ []) k 0
            (omega (arith, length-replicate k (no_object T))) in
      rw at

  answer_before : (n : ℕ) → n < length xs → answer padded_with n ≡ answer xs n
  answer_before n h = rw (get_elem?-append_left xs (replicate k none ++ (some x ∷ [])) n h)

  answer_between : (n : ℕ) → length xs ≤ n → n < length xs + k → answer padded_with n ≡ err missing
  answer_between n lo hi =
      let r = replicate k (no_object T) in
      let at : get_elem? padded_with n ≡ some none =
        get_elem?-append_right xs (r ++ (some x ∷ [])) n (n - length xs) (omega arith)
        ∙ get_elem?-append_left r (some x ∷ []) (n - length xs)
            (omega (arith, length-replicate k (no_object T)))
        ∙ get_elem?-replicate k (no_object T) (n - length xs) (omega arith) in
      rw at

pub read_at_lem :
    {E T : Type 0} (L : AppendLog E T) (laws : AppendLogLaws L) (log : LedgerLog L) (n : ℕ)
    → IsSound L laws log
    → IsSettled L laws log
    → n < 2 ^ 64
    → read_at L log n ≡ answer (objects L laws log) n
unfolding read_at
read_at_lem L laws log n s h small =
    ap (λ (o : Option (Option _)). context not_found_error o >>= context missing)
      (nth-iter L laws log n s h small)

module _ (N : NodeTypes) {E : Type 0} (S : Storage N E) where
  -- A commit of the data source that succeeds commits both logs, and leaves the indices alone.
  pub commit_fields :
      (ds : FileSystemDataSource N S)
      → IsOk (commit N S ds).1
      → IsOk (commit_version S.leaves ds.leaf_storage).1
        × IsOk (commit_version S.blocks ds.block_storage).1
        × ((commit N S ds).0.leaf_storage ≡ (commit_version S.leaves ds.leaf_storage).0)
        × ((commit N S ds).0.block_storage ≡ (commit_version S.blocks ds.block_storage).0)
        × ((commit N S ds).0.index_by_leaf_hash ≡ ds.index_by_leaf_hash)
        × ((commit N S ds).0.index_by_block_hash ≡ ds.index_by_block_hash)
        × ((commit N S ds).0.index_by_proposer_id ≡ ds.index_by_proposer_id)
        × ((commit N S ds).0.index_by_txn_hash ≡ ds.index_by_txn_hash)
  unfolding commit
  commit_fields ds good = ground arith

  pub insert_leaf_fields :
      (ds : FileSystemDataSource N S) (l : LeafQueryData N)
      → IsOk (insert_leaf N S ds l).1
      → IsOk (insert S.leaves ds.leaf_storage (leaf_height N l) l).1
        × ((insert_leaf N S ds l).0
            ≡ index_leaf N S
                (record ds {
                  leaf_storage = (insert S.leaves ds.leaf_storage (leaf_height N l) l).0;
                })
                l)
  unfolding insert_leaf
  insert_leaf_fields ds l good =
      elim (Result-cases (insert S.leaves ds.leaf_storage (leaf_height N l) l).1) [
        | inl (u, e) ↦ (rw e tt, rw (e, insert_leaf) refl)
        | inr (e, bad) ↦ absurd (rw (bad, insert_leaf) at good)
      ]

  module _ (laws : AppendLogLaws S.leaves) (ds : FileSystemDataSource N S) where
    abbrev after_insert : LeafQueryData N → FileSystemDataSource N S
    after_insert l = (insert_leaf N S ds l).0

    abbrev after_commit : LeafQueryData N → FileSystemDataSource N S
    after_commit l = (commit N S (after_insert l)).0

    -- The leaves after a leaf has been inserted behind the others and committed.
    abbrev grown : LeafQueryData N → List (Option (LeafQueryData N))
    grown l =
        objects S.leaves laws ds.leaf_storage
        ++ (replicate (leaf_height N l - len S.leaves laws ds.leaf_storage) none ++ (some l ∷ []))

    stored :
        (l : LeafQueryData N)
        → len S.leaves laws ds.leaf_storage ≤ leaf_height N l
        → IsOk (insert_leaf N S ds l).1
        → IsOk (commit N S (after_insert l)).1
        → IsSound S.leaves laws ds.leaf_storage
        → (objects S.leaves laws (after_commit l).leaf_storage ≡ grown l)
          × IsSound S.leaves laws (after_commit l).leaf_storage
          × IsSettled S.leaves laws (after_commit l).leaf_storage
    unfolding index_leaf
    stored l far inserted done s =
        let (stored_ok, e) = insert_leaf_fields ds l inserted in
        let c = commit_fields (after_insert l) done in
        let leaf_ok = c.0 in
        let f = c.2 in
        let log = (insert S.leaves ds.leaf_storage (leaf_height N l) l).0 in
        let e' : (after_insert l).leaf_storage ≡ log = ap (λ d. d.leaf_storage) e in
        let (grew, s') =
          insert_at_end S.leaves laws ds.leaf_storage (leaf_height N l) l far stored_ok s in
        let (same, sound, settled) = commit_version_lem S.leaves laws log (rw e' at leaf_ok) s' in
        rw (f, e') (same ∙ grew, sound, settled)

    -- The index of leaves points at the leaf.
    indexed :
        (l : LeafQueryData N)
        → IsOk (insert_leaf N S ds l).1
        → IsOk (commit N S (after_insert l)).1
        → (after_commit l).index_by_leaf_hash (leaf_hash N l) ≡ some (leaf_height N l)
    unfolding index_leaf insert_key
    indexed l inserted done =
        let (_, e) = insert_leaf_fields ds l inserted in
        let f = (commit_fields (after_insert l) done).4 in
        ap (λ (m : N.LeafHash → Option ℕ). m (leaf_hash N l)) f
        ∙ ap (λ d. d.index_by_leaf_hash (leaf_hash N l)) e
        ∙ if_pos (N.dec_leaf_hash (leaf_hash N l) (leaf_hash N l)) refl _ _

    get_leaf_answers :
        (l : LeafQueryData N)
        → len S.leaves laws ds.leaf_storage ≤ leaf_height N l
        → leaf_height N l < 2 ^ 64
        → IsOk (insert_leaf N S ds l).1
        → IsOk (commit N S (after_insert l)).1
        → IsSound S.leaves laws ds.leaf_storage
        → (get_leaf N S (after_commit l) (number (leaf_height N l)) ≡ ok l)
          × (get_leaf N S (after_commit l) (hash (leaf_hash N l)) ≡ ok l)
          × ((n : ℕ)
              → n < len S.leaves laws ds.leaf_storage
              → get_leaf N S (after_commit l) (number n)
                ≡ answer (objects S.leaves laws ds.leaf_storage) n)
          × ((n : ℕ)
              → len S.leaves laws ds.leaf_storage ≤ n
              → n < leaf_height N l
              → get_leaf N S (after_commit l) (number n) ≡ err missing)
    unfolding get_leaf resolve
    get_leaf_answers l far small inserted done s =
        let xs = objects S.leaves laws ds.leaf_storage in
        let k = leaf_height N l - len S.leaves laws ds.leaf_storage in
        let n = length-objects S.leaves laws ds.leaf_storage s.0 in
        let total = s.0.total in
        let (e, sound, settled) = stored l far inserted done s in
        let log = (after_commit l).leaf_storage in
        let last : read_at S.leaves log (leaf_height N l) ≡ ok l =
          read_at_lem S.leaves laws log (leaf_height N l) sound settled small
          ∙ ap (λ ys. answer ys (leaf_height N l)) e
          ∙ answer_last xs k l (leaf_height N l) (omega arith) in
        (
          last,
          rw (indexed l inserted done) last,
          λ m lt.
              read_at_lem S.leaves laws log m sound settled (omega arith)
              ∙ ap (λ ys. answer ys m) e
              ∙ answer_before xs k l m (omega arith),
          λ m lo hi.
              read_at_lem S.leaves laws log m sound settled (omega arith)
              ∙ ap (λ ys. answer ys m) e
              ∙ answer_between xs k l m (omega arith) (omega arith),
        )

    -- A leaf of a height below 2^64 that comes at the end of a well-formed chain or behind it is
    -- found by its height and by its hash after an insert and a commit that succeed.
    pub get_leaf-insert_leaf :
        (l : LeafQueryData N)
        → len S.leaves laws ds.leaf_storage ≤ leaf_height N l
        → leaf_height N l < 2 ^ 64
        → IsOk (insert_leaf N S ds l).1
        → IsOk (commit N S (after_insert l)).1
        → IsSound S.leaves laws ds.leaf_storage
        → (get_leaf N S (after_commit l) (number (leaf_height N l)) ≡ ok l)
          × (get_leaf N S (after_commit l) (hash (leaf_hash N l)) ≡ ok l)
    get_leaf-insert_leaf l far small inserted done s =
        let (by_number, by_hash, _, _) = get_leaf_answers l far small inserted done s in
        (by_number, by_hash)

    -- When a leaf of a height below 2^64 behind the end of a well-formed chain has been inserted
    -- and committed with success, every height from the old end up to the leaf is answered as
    -- missing.
    pub get_leaf-missing :
        (l : LeafQueryData N) (n : ℕ)
        → leaf_height N l < 2 ^ 64
        → IsOk (insert_leaf N S ds l).1
        → IsOk (commit N S (after_insert l)).1
        → IsSound S.leaves laws ds.leaf_storage
        → len S.leaves laws ds.leaf_storage ≤ n
        → n < leaf_height N l
        → get_leaf N S (after_commit l) (number n) ≡ err missing
    get_leaf-missing l n small inserted done s lo hi =
        (get_leaf_answers l (omega arith) small inserted done s).3 n lo hi
