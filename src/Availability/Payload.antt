-- ===== src/Availability/Payload.antt =====
-- The provided methods of the trait `QueryablePayload` of src/availability/query_data.rs.
pub mod ByHash
use hotshot_query_service.Prelude.{
  ℕ, zero, List, [], ◌∷◌, Option, none, some, Bool, true, false, get_elem?, map_option, ite, ◌==◌,
  if◌then◌else◌,
}
use hotshot_query_service.NodeTypes.{NodeTypes}

-- `?` on an `Option`
infixl 5 ◌>>=◌
abbrev pub ◌>>=◌ {ℓ κ} : {A : Type ℓ} {B : Type κ} → Option A → (A → Option B) → Option B
none >>= f = none
some a >>= f = f a

-- `Iterator::find`
unfoldable pub find {ℓ} : {A : Type ℓ} → (A → Bool) → List A → Option A
find p [] = none
find p (x ∷ xs) = if p x then some x else find p xs

module _ (N : NodeTypes) where
  open N use {Payload, Transaction, TransactionIndex, InclusionProof, TransactionHash}

  unfoldable pub is_empty : Payload → Bool
  is_empty payload = N.len payload == 0

  unfoldable pub transaction : Payload → TransactionIndex → Option Transaction
  transaction payload index = do (tx, _) ← N.transaction_with_proof payload index; some tx

  unfoldable pub proof : Payload → TransactionIndex → Option InclusionProof
  proof payload index = do (_, p) ← N.transaction_with_proof payload index; some p

  -- `none` is the panic of `unwrap` on an index for which there is no transaction.
  unfoldable pub enumerate_from :
      Payload → List TransactionIndex → Option (List (TransactionIndex × Transaction))
  enumerate_from payload [] = some []
  enumerate_from payload (ix ∷ ixs) =
      let rest = enumerate_from payload ixs in
      do tx ← transaction payload ix; txs ← rest; some ((ix, tx) ∷ txs)

  unfoldable pub enumerate : Payload → Option (List (TransactionIndex × Transaction))
  unfolding enumerate_from
  enumerate payload = enumerate_from payload (N.iter payload)

  unfoldable pub nth : Payload → ℕ → Option TransactionIndex
  nth payload n = get_elem? (N.iter payload) n

  unfoldable pub nth_transaction : Payload → ℕ → Option Transaction
  nth_transaction payload n = do ix ← nth payload n; transaction payload ix

  unfoldable pub nth_transaction_with_proof : Payload → ℕ → Option (Transaction × InclusionProof)
  nth_transaction_with_proof payload n = do ix ← nth payload n; N.transaction_with_proof payload ix

  unfoldable pub has_hash : Payload → TransactionHash → TransactionIndex → Bool
  has_hash payload hash i = elim (transaction payload i) [
    | none ↦ false
    | some tx ↦ ite (N.dec_transaction_hash (N.commit_transaction tx) hash) true false
  ]

  unfoldable pub by_hash : Payload → TransactionHash → Option TransactionIndex
  by_hash payload hash = find (has_hash payload hash) (N.iter payload)

  unfoldable pub transaction_by_hash : Payload → TransactionHash → Option Transaction
  transaction_by_hash payload hash = do ix ← by_hash payload hash; transaction payload ix

  unfoldable pub transaction_by_hash_with_proof :
      Payload → TransactionHash → Option (Transaction × InclusionProof)
  transaction_by_hash_with_proof payload hash = do
    ix ← by_hash payload hash
    N.transaction_with_proof payload ix
