-- ===== src/Availability/QueryData.antt =====
-- `LeafQueryData`, `BlockQueryData` and `TransactionQueryData` of
-- src/availability/query_data.rs.
pub mod Consistent
use hotshot_query_service.Prelude.{
  ℕ, Option, none, some, List, length, Bool, ◌==◌, Result, ok, err, ite, ◌%◌, ◌^◌,
}
use hotshot_query_service.NodeTypes.{NodeTypes}
use hotshot_query_service.Availability.Payload.{◌>>=◌}

module _ (N : NodeTypes) where
  pub record LeafQueryData : Type 0 where
    pub leaf : N.Leaf
    pub qc : N.QuorumCertificate

  pub record InconsistentLeafError : Type 0 where
    pub leaf : N.LeafHash
    pub qc_leaf : N.LeafHash

  pub record BlockQueryData : Type 0 where
    pub header : N.Header
    pub payload : N.Payload
    pub hash : N.BlockHash
    pub size : ℕ

  pub record TransactionQueryData : Type 0 where
    pub transaction : N.Transaction
    pub block_hash : N.BlockHash
    pub proof : N.InclusionProof
    pub height : ℕ
    pub hash : N.TransactionHash

  -- The number of bytes of the encoded payload, 0 if it cannot be encoded.
  unfoldable pub payload_size : N.Payload → ℕ
  payload_size payload = elim (N.encode payload) [ some bytes ↦ length bytes % 2 ^ 64 | none ↦ 0 ]

  unfoldable pub new_leaf :
      N.Leaf → N.QuorumCertificate → Result InconsistentLeafError LeafQueryData
  new_leaf leaf qc =
      ite (N.dec_leaf_hash (N.leaf_commit qc) (N.commit_leaf leaf))
        (ok (record { leaf = leaf; qc = qc }))
        (err (record { leaf = N.commit_leaf leaf; qc_leaf = N.leaf_commit qc }))

  unfoldable pub genesis_leaf : LeafQueryData
  genesis_leaf = record { leaf = N.genesis_leaf; qc = N.genesis_qc }

  abbrev pub leaf_height : LeafQueryData → ℕ
  leaf_height l = N.block_number (N.block_header l.leaf)

  abbrev pub leaf_hash : LeafQueryData → N.LeafHash
  leaf_hash l = N.commit_leaf l.leaf

  abbrev pub leaf_block_hash : LeafQueryData → N.BlockHash
  leaf_block_hash l = N.commit_header (N.block_header l.leaf)

  abbrev pub proposer : LeafQueryData → N.EncodedPublicKey
  proposer l = N.get_proposer_id l.leaf

  -- The debug assertion on the payload's commitment is not part of a release build.
  unfoldable pub new_block :
      N.Leaf → N.QuorumCertificate → N.Payload → Result InconsistentLeafError BlockQueryData
  unfolding payload_size
  new_block leaf qc payload =
      ite (N.dec_leaf_hash (N.leaf_commit qc) (N.commit_leaf leaf))
        (ok (record {
          hash = N.commit_header (N.block_header leaf);
          header = N.block_header leaf;
          size = payload_size payload;
          payload = payload;
        }))
        (err (record { leaf = N.commit_leaf leaf; qc_leaf = N.leaf_commit qc }))

  unfoldable pub genesis_block : BlockQueryData
  unfolding payload_size
  genesis_block = record {
    header = N.genesis_header;
    payload = N.genesis_payload;
    hash = N.commit_header N.genesis_header;
    size = payload_size N.genesis_payload;
  }

  abbrev pub block_height : BlockQueryData → ℕ
  block_height b = N.block_number b.header

  unfoldable pub block_is_empty : BlockQueryData → Bool
  block_is_empty b = N.len b.payload == 0

  unfoldable pub block_transaction :
      BlockQueryData → N.TransactionIndex → Option TransactionQueryData
  block_transaction b i = do
    (tx, proof) ← N.transaction_with_proof b.payload i
    some (record {
      transaction = tx;
      block_hash = b.hash;
      proof = proof;
      height = block_height b;
      hash = N.commit_transaction tx;
    })
