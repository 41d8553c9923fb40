-- ===== src/Update/Chain.antt =====
-- What an update does on a chain of leaves that are linked by their certificates.
use hotshot_query_service.Prelude.{
  ℕ, Option, none, some, List, [], ◌∷◌, ◌++◌, map, reverse, drop, length, Result, ok, Fault,
  and_then, ◌≡◌, refl, sym, ap, ◌∙◌, length-append, arith, suc, ap₂, fun_ext, subst, zip,
}
use mathlib.Core.Logic.{if_pos}
use mathlib.Core.List.{reverse-cons, reverse-append}
use hotshot_query_service.NodeTypes.{NodeTypes}
use hotshot_query_service.Availability.QueryData.{new_leaf, new_block, payload_size}
use hotshot_query_service.Update.{
  UpdateAvailabilityData, decide, store_pair, store_pairs, chronological, update, expect_ok,
}

module _ (N : NodeTypes) where
  -- Each leaf with the certificate that references it: the certificate of the decision for the
  -- first, and for each other the certificate in the leaf before it.
  unfoldable pub justified : N.QuorumCertificate → List N.Leaf → List (N.QuorumCertificate × N.Leaf)
  justified qc [] = []
  justified qc (leaf ∷ chain) = (qc, leaf) ∷ justified (N.get_justify_qc leaf) chain

  -- Every certificate references its leaf.
  unfoldable pub IsLinked : N.QuorumCertificate → List N.Leaf → Type 0
  IsLinked qc [] = Unit
  IsLinked qc (leaf ∷ chain) =
      (N.leaf_commit qc ≡ N.commit_leaf leaf) × IsLinked (N.get_justify_qc leaf) chain

zip-snoc :
    {A B : Type 0} (xs : List A) (ys : List B) (a : A) (b : B)
    → length xs ≡ length ys
    → zip (xs ++ (a ∷ [])) (ys ++ (b ∷ [])) ≡ zip xs ys ++ ((a, b) ∷ [])
zip-snoc [] [] a b e = refl
zip-snoc [] (y ∷ ys) a b e = absurd (omega arith)
zip-snoc (x ∷ xs) [] a b e = absurd (omega arith)
zip-snoc (x ∷ xs) (y ∷ ys) a b e = ap (λ l. (x, y) ∷ l) (zip-snoc xs ys a b (omega arith))

length-reverse : {A : Type 0} (xs : List A) → length (reverse xs) ≡ length xs
length-reverse [] = refl
length-reverse (x ∷ xs) =
    rw (reverse-cons x xs)
      (length-append (reverse xs) (x ∷ []) ∙ rw (length-reverse xs) omega arith)

pred : {m n : ℕ} → suc m ≡ suc n → m ≡ n
pred e = omega arith

zip-reverse :
    {A B : Type 0} (xs : List A) (ys : List B)
    → length xs ≡ length ys
    → zip (reverse xs) (reverse ys) ≡ reverse (zip xs ys)
zip-reverse [] [] e = refl
zip-reverse [] (y ∷ ys) e = absurd (omega arith)
zip-reverse (x ∷ xs) [] e = absurd (omega arith)
zip-reverse (x ∷ xs) (y ∷ ys) e =
    ap₂ zip (reverse-cons x xs) (reverse-cons y ys)
    ∙ zip-snoc (reverse xs) (reverse ys) x y (length-reverse xs ∙ pred e ∙ sym (length-reverse ys))
    ∙ ap (λ l. l ++ ((x, y) ∷ [])) (zip-reverse xs ys (omega arith))
    ∙ sym (reverse-cons (x, y) (zip xs ys))

module _ (N : NodeTypes) where
  certificates : N.QuorumCertificate → List N.Leaf → List N.QuorumCertificate
  certificates qc [] = []
  certificates qc (leaf ∷ chain) = qc ∷ certificates (N.get_justify_qc leaf) chain

  last_justify : N.QuorumCertificate → List N.Leaf → N.QuorumCertificate
  last_justify qc [] = qc
  last_justify qc (leaf ∷ chain) = last_justify (N.get_justify_qc leaf) chain

  certificates-last :
      (qc : N.QuorumCertificate) (chain : List N.Leaf)
      → qc ∷ map N.get_justify_qc chain ≡ certificates qc chain ++ (last_justify qc chain ∷ [])
  unfolding certificates last_justify
  certificates-last qc [] = refl
  certificates-last qc (leaf ∷ chain) =
      ap (λ l. qc ∷ l) (certificates-last (N.get_justify_qc leaf) chain)

  length-certificates :
      (qc : N.QuorumCertificate) (chain : List N.Leaf)
      → length (certificates qc chain) ≡ length chain
  unfolding certificates
  length-certificates qc [] = refl
  length-certificates qc (leaf ∷ chain) = ap suc (length-certificates (N.get_justify_qc leaf) chain)

  zip-certificates :
      (qc : N.QuorumCertificate) (chain : List N.Leaf)
      → zip (certificates qc chain) chain ≡ justified N qc chain
  unfolding certificates justified
  zip-certificates qc [] = refl
  zip-certificates qc (leaf ∷ chain) =
      ap (λ l. (qc, leaf) ∷ l) (zip-certificates (N.get_justify_qc leaf) chain)

  -- The pairs that an update goes through are each leaf of the chain with the certificate that
  -- comes with it from the decision or from the leaf before it, from the oldest leaf to the most
  -- recent one.
  pub chronological-justified :
      (qc : N.QuorumCertificate) (chain : List N.Leaf)
      → chronological N chain qc ≡ reverse (justified N qc chain)
  unfolding chronological
  chronological-justified qc chain =
      ap (λ l. zip (drop 1 (reverse l)) (reverse chain)) (certificates-last qc chain)
      ∙ ap (λ l. zip (drop 1 l) (reverse chain))
          (reverse-append (certificates qc chain) (last_justify qc chain ∷ []))
      ∙ zip-reverse (certificates qc chain) chain (length-certificates qc chain)
      ∙ ap reverse (zip-certificates qc chain)

module _ (N : NodeTypes) {D E : Type 0} (source : UpdateAvailabilityData N D E) where
  -- What is stored for a leaf: the leaf with its certificate, then its block if the leaf has the
  -- payload.
  unfoldable pub store_leaf : D → N.QuorumCertificate × N.Leaf → D × Result (Fault E) (Unit {0})
  unfolding payload_size
  store_leaf d (qc, leaf) = and_then (source.insert_leaf d (record { leaf = leaf; qc = qc })) λ d'.
      elim (N.get_block_payload leaf) [
        | none ↦ (d', ok tt)
        | some payload ↦ source.insert_block d' (record {
          hash = N.commit_header (N.block_header leaf);
          header = N.block_header leaf;
          size = payload_size N payload;
          payload = payload;
        })
      ]

  -- One after the other, up to the first that fails.
  unfoldable pub store_leaves :
      List (N.QuorumCertificate × N.Leaf) → D → D × Result (Fault E) (Unit {0})
  unfolding store_leaf
  store_leaves [] d = (d, ok tt)
  store_leaves (p ∷ ps) d = and_then (store_leaf d p) (store_leaves ps)

  References : N.QuorumCertificate × N.Leaf → Type 0
  References (qc, leaf) = N.leaf_commit qc ≡ N.commit_leaf leaf

  AllReference : List (N.QuorumCertificate × N.Leaf) → Type 0
  AllReference [] = Unit
  AllReference (p ∷ ps) = References p × AllReference ps

  AllReference-append :
      (ps qs : List (N.QuorumCertificate × N.Leaf))
      → AllReference ps
      → AllReference qs
      → AllReference (ps ++ qs)
  unfolding AllReference
  AllReference-append [] qs a b = b
  AllReference-append (p ∷ ps) qs (r, a) b = (r, AllReference-append ps qs a b)

  AllReference-reverse :
      (ps : List (N.QuorumCertificate × N.Leaf)) → AllReference ps → AllReference (reverse ps)
  unfolding AllReference
  AllReference-reverse [] a = tt
  AllReference-reverse (p ∷ ps) (r, a) =
      subst AllReference (sym (reverse-cons p ps))
        (AllReference-append (reverse ps) (p ∷ []) (AllReference-reverse ps a) (r, tt))

  justified-AllReference :
      (qc : N.QuorumCertificate) (chain : List N.Leaf)
      → IsLinked N qc chain
      → AllReference (justified N qc chain)
  unfolding AllReference References justified IsLinked
  justified-AllReference qc [] l = tt
  justified-AllReference qc (leaf ∷ chain) (r, l) =
      (r, justified-AllReference (N.get_justify_qc leaf) chain l)

  new_leaf-references :
      (leaf : N.Leaf) (qc : N.QuorumCertificate)
      → N.leaf_commit qc ≡ N.commit_leaf leaf
      → new_leaf N leaf qc ≡ ok (record { leaf = leaf; qc = qc })
  unfolding new_leaf
  new_leaf-references leaf qc r =
      if_pos (N.dec_leaf_hash (N.leaf_commit qc) (N.commit_leaf leaf)) r _ _

  new_block-references :
      (leaf : N.Leaf) (qc : N.QuorumCertificate) (payload : N.Payload)
      → N.leaf_commit qc ≡ N.commit_leaf leaf
      → new_block N leaf qc payload
        ≡ ok (record {
          hash = N.commit_header (N.block_header leaf);
          header = N.block_header leaf;
          size = payload_size N payload;
          payload = payload;
        })
  unfolding new_block
  new_block-references leaf qc payload r =
      if_pos (N.dec_leaf_hash (N.leaf_commit qc) (N.commit_leaf leaf)) r _ _

  block_or_not :
      (o : Option N.Payload) (d : D) (leaf : N.Leaf) (qc : N.QuorumCertificate)
      → N.leaf_commit qc ≡ N.commit_leaf leaf
      → ◌≡◌ {A = D × Result (Fault E) (Unit {0})}
          (elim o [
            | some payload ↦
                expect_ok N source (new_block N leaf qc payload) (source.insert_block d) d
            | none ↦ (d, ok tt)
          ])
          (elim o [
            | none ↦ (d, ok tt)
            | some payload ↦ source.insert_block d (record {
              hash = N.commit_header (N.block_header leaf);
              header = N.block_header leaf;
              size = payload_size N payload;
              payload = payload;
            })
          ])
  block_or_not none d leaf qc r = refl
  block_or_not (some payload) d leaf qc r =
      ap (λ b. expect_ok N source b (source.insert_block d) d)
        (new_block-references leaf qc payload r)

  store_pair-store_leaf :
      (d : D) (qc : N.QuorumCertificate) (leaf : N.Leaf)
      → N.leaf_commit qc ≡ N.commit_leaf leaf
      → store_pair N source d (qc, leaf) ≡ store_leaf d (qc, leaf)
  unfolding store_pair store_leaf new_leaf new_block
  store_pair-store_leaf d qc leaf r =
      ap₂ and_then
        (ap (λ l. expect_ok N source l (source.insert_leaf d) d) (new_leaf-references leaf qc r))
        (fun_ext λ d'. block_or_not (N.get_block_payload leaf) d' leaf qc r)

  store_pairs-store_leaves :
      (ps : List (N.QuorumCertificate × N.Leaf)) (d : D)
      → AllReference ps
      → store_pairs N source ps d ≡ store_leaves ps d
  unfolding store_pairs store_leaves AllReference References
  store_pairs-store_leaves [] d a = refl
  store_pairs-store_leaves ((qc, leaf) ∷ ps) d (r, a) =
      ap₂ and_then (store_pair-store_leaf d qc leaf r)
        (fun_ext λ d'. store_pairs-store_leaves ps d' a)

  -- An update with a decision whose certificates reference their leaves never meets the panic of
  -- an inconsistent leaf: it stores each leaf with its certificate and then the block that the
  -- leaf carries, from the oldest leaf to the most recent one, up to the first operation that
  -- fails.
  pub update-decide :
      (d : D) (qc : N.QuorumCertificate) (chain : List N.Leaf)
      → IsLinked N qc chain
      → update N source d (decide chain qc) ≡ store_leaves (reverse (justified N qc chain)) d
  unfolding update
  update-decide d qc chain l =
      ap (λ ps. store_pairs N source ps d) (chronological-justified N qc chain)
      ∙ store_pairs-store_leaves (reverse (justified N qc chain)) d
          (AllReference-reverse (justified N qc chain) (justified-AllReference qc chain l))
