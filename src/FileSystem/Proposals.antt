-- ===== src/FileSystem/Proposals.antt =====
-- The proposals that the data source of src/data_source/fs.rs finds by its index, against the chain.
use hotshot_query_service.Prelude.{
  ℕ, zero, ◌-◌, suc, Option, none, some, List, [], ◌∷◌, ◌++◌, map, length, drop, ok, ◌≡◌, refl, sym,
  ap, ◌∙◌, subst, inl, inr, arith, Option-cases, append-nil, append_assoc, length-map, ap₂, ◌≤◌,
}
use hotshot_query_service.NodeTypes.{NodeTypes}
use hotshot_query_service.AppendLog.{AppendLogLaws, IsOk}
use hotshot_query_service.LedgerLog.Inv.{objects, length-objects, len}
use hotshot_query_service.LedgerLog.Contents.{IsSound, insert_at_end}
use hotshot_query_service.LedgerLog.Reads.{IsSettled}
use hotshot_query_service.LedgerLog.Broadcast.{IsSmall}
use hotshot_query_service.Availability.QueryData.{LeafQueryData, leaf_height, proposer}
use hotshot_query_service.FileSystem.Defs.{
  Storage, FileSystemDataSource, index_leaf, empty_source, insert_leaf,
}
use hotshot_query_service.FileSystem.Flatten.{somes}
use hotshot_query_service.FileSystem.Index.{push_entry, insert_key}
use hotshot_query_service.FileSystem.Placed.{Placed, AllAt, Placed-AllAt, Placed-append, AllAt-drop}
use hotshot_query_service.FileSystem.Open.{index_leaves}
use hotshot_query_service.FileSystem.Queries.{
  get_leaf, resolve, proposals_of, start_from, get_leaves, get_proposals, count_proposals,
  try_collect,
}
use hotshot_query_service.FileSystem.Reopen.{SameIndices, rebuilt}
use hotshot_query_service.FileSystem.Stored.{read_at_lem, insert_leaf_fields}

module _ (N : NodeTypes) where
  -- The leaves of a proposer.
  abbrev pub proposed : N.EncodedPublicKey → List (LeafQueryData N) → List (LeafQueryData N)
  proposed id [] = []
  proposed id (l ∷ ls) =
      let rest = proposed id ls in
      elim (N.dec_public_key id (proposer N l)) [ yes e ↦ l ∷ rest | no n ↦ rest ]

  -- As many of them as the limit allows, the last ones.
  abbrev pub most_recent : Option ℕ → List (LeafQueryData N) → List (LeafQueryData N)
  most_recent none ls = ls
  most_recent (some count) ls = drop (length ls - count) ls

  AllAt-proposed :
      (xs : List (Option (LeafQueryData N))) (id : N.EncodedPublicKey) (ls : List (LeafQueryData N))
      → AllAt N xs ls
      → AllAt N xs (proposed id ls)
  AllAt-proposed xs id [] a = tt
  AllAt-proposed xs id (l ∷ ls) (at, small, a) =
      elim (N.dec_public_key id (proposer N l))
        as (λ d. AllAt N xs (elim d [ yes e ↦ l ∷ proposed id ls | no n ↦ proposed id ls ])) [
          | yes e ↦ (at, small, AllAt-proposed xs id ls a)
          | no n ↦ AllAt-proposed xs id ls a
        ]

-- The entries at a key.
abbrev entries : Option (List ℕ) → List ℕ
entries none = []
entries (some es) = es

push_entry-entries :
    {K : Type 0} (dec : Discrete K) (index : K → Option (List ℕ)) (key : K) (pos : ℕ) (j : K)
    (d : Dec (j ≡ key))
    → dec j key ≡ d
    → entries (push_entry dec index key pos j)
      ≡ elim d [ yes e ↦ entries (index j) ++ (pos ∷ []) | no n ↦ entries (index j) ]
unfolding push_entry insert_key
push_entry-entries dec index key pos j (yes e) h = elim (Option-cases (index key)) [
  | inl none_at ↦ ground (arith, h, ap index e)
  | inr (es, at) ↦ ground (arith, h, ap index e)
]
push_entry-entries dec index key pos j (no n) h = elim (Option-cases (index key)) [
  | inl none_at ↦ ground (arith, h)
  | inr (es, at) ↦ ground (arith, h)
]

proposals_of-entries :
    (N : NodeTypes) {E : Type 0} (S : Storage N E) (ds : FileSystemDataSource N S)
    (id : N.EncodedPublicKey)
    → proposals_of N S ds id ≡ entries (ds.index_by_proposer_id id)
unfolding proposals_of
proposals_of-entries N S ds id = ground arith

module _ (N : NodeTypes) {E : Type 0} (S : Storage N E) where
  proposals_of-index_leaf :
      (ds : FileSystemDataSource N S) (l : LeafQueryData N) (id : N.EncodedPublicKey)
      → proposals_of N S (index_leaf N S ds l) id ≡ elim (N.dec_public_key id (proposer N l)) [
        | yes e ↦ proposals_of N S ds id ++ (leaf_height N l ∷ [])
        | no n ↦ proposals_of N S ds id
      ]
  unfolding index_leaf
  proposals_of-index_leaf ds l id =
      proposals_of-entries N S (index_leaf N S ds l) id
      ∙ push_entry-entries N.dec_public_key ds.index_by_proposer_id (proposer N l) (leaf_height N l)
          id (N.dec_public_key id (proposer N l)) refl
      ∙ ap
          (λ (hs : List ℕ). elim (N.dec_public_key id (proposer N l)) as (λ d. List ℕ) [
            | yes e ↦ hs ++ (leaf_height N l ∷ [])
            | no n ↦ hs
          ])
          (sym (proposals_of-entries N S ds id))

  proposals_of-index_leaves :
      (ds : FileSystemDataSource N S) (ls : List (LeafQueryData N)) (id : N.EncodedPublicKey)
      → proposals_of N S (index_leaves N S ds ls) id
        ≡ proposals_of N S ds id ++ map (leaf_height N) (proposed N id ls)
  unfolding index_leaves
  proposals_of-index_leaves ds [] id = sym (append-nil (proposals_of N S ds id))
  proposals_of-index_leaves ds (l ∷ ls) id =
      proposals_of-index_leaves (index_leaf N S ds l) ls id
      ∙ ap (λ hs. hs ++ map (leaf_height N) (proposed N id ls)) (proposals_of-index_leaf ds l id)
      ∙ elim (N.dec_public_key id (proposer N l))
          as (λ d.
            (elim d as (λ x. List ℕ) [
              | yes e ↦ proposals_of N S ds id ++ (leaf_height N l ∷ [])
              | no n ↦ proposals_of N S ds id
            ])
              ++ map (leaf_height N) (proposed N id ls)
            ≡ proposals_of N S ds id
              ++ map (leaf_height N)
                  (elim d [ yes e ↦ l ∷ proposed N id ls | no n ↦ proposed N id ls ])) [
                    | yes e ↦
                        append_assoc (proposals_of N S ds id) (leaf_height N l ∷ [])
                          (map (leaf_height N) (proposed N id ls))
                    | no n ↦ refl
                  ]

  try_collect-ok : {A : Type 0} (xs : List A) → try_collect (map (λ x. ok x) xs) ≡ ok xs
  unfolding try_collect
  try_collect-ok [] = refl
  try_collect-ok (x ∷ xs) = rw (try_collect-ok xs) refl

  map-drop :
      {A B : Type 0} (f : A → B) (n : ℕ) (xs : List A) → drop n (map f xs) ≡ map f (drop n xs)
  map-drop f zero xs = refl
  map-drop f (suc n) [] = refl
  map-drop f (suc n) (x ∷ xs) = map-drop f n xs

  module _ (lv : AppendLogLaws S.leaves) (bv : AppendLogLaws S.blocks)
      (ds : FileSystemDataSource N S) where
    abbrev chain : List (Option (LeafQueryData N))
    chain = objects S.leaves lv ds.leaf_storage

    get_leaves-AllAt :
        (ls : List (LeafQueryData N))
        → IsSound S.leaves lv ds.leaf_storage
        → IsSettled S.leaves lv ds.leaf_storage
        → IsSmall S.leaves lv ds.leaf_storage
        → AllAt N chain ls
        → get_leaves N S ds (map (leaf_height N) ls) ≡ map (λ l. ok l) ls
    unfolding get_leaves get_leaf resolve
    get_leaves-AllAt [] s h small a = refl
    get_leaves-AllAt (l ∷ ls) s h small (at, inside, a) =
        ap₂ (λ r rs. r ∷ rs)
          (read_at_lem S.leaves lv ds.leaf_storage (leaf_height N l) s h
              (omega (arith, inside, small))
            ∙ at)
          (get_leaves-AllAt ls s h small a)

    get_leaves-most_recent :
        (limit : Option ℕ) (ls : List (LeafQueryData N))
        → IsSound S.leaves lv ds.leaf_storage
        → IsSettled S.leaves lv ds.leaf_storage
        → IsSmall S.leaves lv ds.leaf_storage
        → AllAt N chain ls
        → get_leaves N S ds
            (drop (start_from N S ds (map (leaf_height N) ls) limit) (map (leaf_height N) ls))
          ≡ map (λ l. ok l) (most_recent N limit ls)
    unfolding start_from
    get_leaves-most_recent none ls s h small a = get_leaves-AllAt ls s h small a
    get_leaves-most_recent (some count) ls s h small a =
        let start = length ls - count in
        ap (λ n. get_leaves N S ds (drop (n - count) (map (leaf_height N) ls)))
          (length-map (leaf_height N) ls)
        ∙ ap (get_leaves N S ds) (map-drop (leaf_height N) start ls)
        ∙ get_leaves-AllAt (drop start ls) s h small (AllAt-drop N chain start ls a)

    count_proposals-entries :
        (id : N.EncodedPublicKey) → count_proposals N S ds id ≡ length (proposals_of N S ds id)
    unfolding count_proposals proposals_of
    count_proposals-entries id = ground arith

    heights_of :
        (id : N.EncodedPublicKey)
        → SameIndices N S lv bv ds (rebuilt N S lv bv ds)
        → proposals_of N S ds id ≡ map (leaf_height N) (proposed N id (somes chain))
    unfolding empty_source
    heights_of id same =
        proposals_of-entries N S ds id
        ∙ ap (λ (m : N.EncodedPublicKey → Option (List ℕ)). entries (m id)) same.by_proposer
        ∙ sym (proposals_of-entries N S (rebuilt N S lv bv ds) id)
        ∙ proposals_of-index_leaves (empty_source N S ds.leaf_storage ds.block_storage)
            (somes chain) id
        ∙ ap (λ hs. hs ++ map (leaf_height N) (proposed N id (somes chain)))
            (proposals_of-entries N S (empty_source N S ds.leaf_storage ds.block_storage) id)

    -- On a small well-formed chain of leaves in which each leaf stands at its height, with storage
    -- holding everything in front of the cache and the indices of leaves being those that are
    -- built from the chain, the proposals of a proposer are all the leaves of the chain that it
    -- proposed, in the order of the chain, or with a limit the last ones of these, as many as the
    -- limit allows; and they are counted right.
    pub get_proposals-proposed :
        (id : N.EncodedPublicKey) (limit : Option ℕ)
        → IsSound S.leaves lv ds.leaf_storage
        → IsSettled S.leaves lv ds.leaf_storage
        → IsSmall S.leaves lv ds.leaf_storage
        → Placed N 0 chain
        → SameIndices N S lv bv ds (rebuilt N S lv bv ds)
        → (get_proposals N S ds id limit ≡ ok (most_recent N limit (proposed N id (somes chain))))
          × (count_proposals N S ds id ≡ length (proposed N id (somes chain)))
    unfolding get_proposals
    get_proposals-proposed id limit s h small placed same =
        let ms = proposed N id (somes chain) in
        let heights = heights_of id same in
        let at = AllAt-proposed N chain id (somes chain) (Placed-AllAt N [] chain placed) in
        (
          ap (λ hs. try_collect (get_leaves N S ds (drop (start_from N S ds hs limit) hs))) heights
              ∙ ap try_collect (get_leaves-most_recent limit ms s h small at)
              ∙ try_collect-ok (most_recent N limit ms),
          count_proposals-entries id ∙ ap length heights ∙ length-map (leaf_height N) ms,
        )

    -- An insert of a leaf at the end of the chain or behind it keeps every leaf at its height.
    pub insert_leaf-Placed :
        (l : LeafQueryData N)
        → len S.leaves lv ds.leaf_storage ≤ leaf_height N l
        → IsOk (insert_leaf N S ds l).1
        → IsSound S.leaves lv ds.leaf_storage
        → Placed N 0 chain
        → Placed N 0 (objects S.leaves lv (insert_leaf N S ds l).0.leaf_storage)
    unfolding index_leaf
    insert_leaf-Placed l far good s placed =
        let (stored_ok, e) = insert_leaf_fields N S ds l good in
        let height = leaf_height N l in
        let (grew, _) = insert_at_end S.leaves lv ds.leaf_storage height l far stored_ok s in
        let n = length-objects S.leaves lv ds.leaf_storage s.0 in
        subst (Placed N 0) (sym (ap (λ d. objects S.leaves lv d.leaf_storage) e ∙ grew)) (
          Placed-append N 0 chain (height - len S.leaves lv ds.leaf_storage) l
            (omega (arith, n, s.0.total, far)) placed)
