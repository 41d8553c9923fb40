-- ===== src/Availability/QueryData/Consistent.antt =====
-- A leaf and a block that are made from the same data agree.
use hotshot_query_service.Prelude.{ok, err, ◌≡◌, ◌≢◌, ◌⊎◌, inl, inr, refl}
use mathlib.Core.Logic.{if_pos, if_neg}
use hotshot_query_service.NodeTypes.{NodeTypes}
use hotshot_query_service.Availability.QueryData.{
  InconsistentLeafError, LeafQueryData, BlockQueryData, new_leaf, new_block, leaf_height,
  leaf_block_hash, block_height, payload_size,
}

module _ (N : NodeTypes) (leaf : N.Leaf) (qc : N.QuorumCertificate) (payload : N.Payload) where
  -- A leaf and a block made from a certificate that references the leaf are both accepted, with
  -- the same height and block hash; from any other certificate both are refused with the two
  -- hashes that differ.
  pub new_agree :
      ((l : LeafQueryData N) × (b : BlockQueryData N) × (new_leaf N leaf qc ≡ ok l)
        × (new_block N leaf qc payload ≡ ok b)
        × (leaf_height N l ≡ block_height N b)
        × (leaf_block_hash N l ≡ b.hash)
        × (N.leaf_commit qc ≡ N.commit_leaf leaf))
      ⊎ ((new_leaf N leaf qc
            ≡ err (record { leaf = N.commit_leaf leaf; qc_leaf = N.leaf_commit qc }))
          × (new_block N leaf qc payload
              ≡ err (record { leaf = N.commit_leaf leaf; qc_leaf = N.leaf_commit qc }))
          × (N.leaf_commit qc ≢ N.commit_leaf leaf))
  unfolding new_leaf new_block
  new_agree =
      let dec = N.dec_leaf_hash (N.leaf_commit qc) (N.commit_leaf leaf) in
      let l : LeafQueryData N = record { leaf = leaf; qc = qc } in
      let b : BlockQueryData N = record {
        hash = N.commit_header (N.block_header leaf);
        header = N.block_header leaf;
        size = payload_size N payload;
        payload = payload;
      } in
      let e : InconsistentLeafError N = record {
        leaf = N.commit_leaf leaf;
        qc_leaf = N.leaf_commit qc;
      } in
      elim (N.dec_leaf_hash (N.leaf_commit qc) (N.commit_leaf leaf)) [
        | yes p ↦
            inl (l, b, if_pos dec p (ok l) (err e), if_pos dec p (ok b) (err e), refl, refl, p)
        | no p ↦ inr (if_neg dec p (ok l) (err e), if_neg dec p (ok b) (err e), p)
      ]
