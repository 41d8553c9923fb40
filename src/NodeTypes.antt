-- ===== src/NodeTypes.antt =====
-- What the service takes from HotShot and from the application: leaves, certificates, headers,
-- payloads and their commitments (`NodeType`, `Leaf`, `QuorumCertificate`, `Committable` of the
-- crates hotshot_types and commit, and the required methods of the trait `QueryablePayload` of
-- src/availability/query_data.rs, which an application implements).
use hotshot_query_service.Prelude.{ℕ, Bool, List, Option}

pub record NodeTypes : Type 1 where
  pub Leaf : Type 0
  pub QuorumCertificate : Type 0
  pub Header : Type 0
  pub Payload : Type 0
  pub Transaction : Type 0
  pub LeafHash : Type 0
  pub BlockHash : Type 0
  pub TransactionHash : Type 0
  pub EncodedPublicKey : Type 0
  pub dec_leaf_hash : Discrete LeafHash
  pub dec_block_hash : Discrete BlockHash
  pub dec_transaction_hash : Discrete TransactionHash
  pub dec_public_key : Discrete EncodedPublicKey
  pub commit_leaf : Leaf → LeafHash
  pub commit_header : Header → BlockHash
  pub commit_transaction : Transaction → TransactionHash
  pub block_header : Leaf → Header
  pub get_block_payload : Leaf → Option Payload
  pub get_justify_qc : Leaf → QuorumCertificate
  pub get_proposer_id : Leaf → EncodedPublicKey
  pub leaf_commit : QuorumCertificate → LeafHash
  pub block_number : Header → ℕ
  pub encode : Payload → Option (List ℕ)
  pub genesis_leaf : Leaf
  pub genesis_qc : QuorumCertificate
  pub genesis_header : Header
  pub genesis_payload : Payload
  -- the required items of `QueryablePayload`; `lt_index` is the `<` of its `Ord`
  pub TransactionIndex : Type 0
  pub InclusionProof : Type 0
  pub lt_index : TransactionIndex → TransactionIndex → Bool
  pub len : Payload → ℕ
  pub iter : Payload → List TransactionIndex
  pub transaction_with_proof : Payload → TransactionIndex → Option (Transaction × InclusionProof)
