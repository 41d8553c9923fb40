-- ===== src/Update.antt =====
-- src/data_source/update.rs: a data source that is kept up to date by the events of consensus, and
-- the loop of `run_standalone_service` in src/lib.rs. The children: what an update does on a chain of leaves
-- (Chain), the loop (Service) and the data source on files as an implementation (Files).
pub mod Chain
pub mod Service
pub mod Decided
use hotshot_query_service.Prelude.{
  ℕ, Option, none, some, List, [], ◌∷◌, ◌++◌, map, reverse, drop, Result, ok, err, Fault, error,
  panic, and_then, zip,
}
use hotshot_query_service.NodeTypes.{NodeTypes}
use hotshot_query_service.Availability.QueryData.{
  LeafQueryData, BlockQueryData, InconsistentLeafError, new_leaf, new_block,
}

-- `UpdateAvailabilityData`: the state `D`, and operations that change it and may fail.
pub record UpdateAvailabilityData (N : NodeTypes) (D E : Type 0) : Type 0 where
  pub insert_leaf : D → LeafQueryData N → D × Result (Fault E) (Unit {0})
  pub insert_block : D → BlockQueryData N → D × Result (Fault E) (Unit {0})

-- `EventType`: the decision of a chain, most recent leaf first, or any other event.
pub data Event (N : NodeTypes) : Type 0 where
  decide : List N.Leaf → N.QuorumCertificate → Event N
  other : Event N

-- The certificates in chronological order, without the oldest, with the leaves in that order.
unfoldable pub chronological :
    (N : NodeTypes) → List N.Leaf → N.QuorumCertificate → List (N.QuorumCertificate × N.Leaf)
chronological N leaf_chain qc =
    zip (drop 1 (reverse (qc ∷ map N.get_justify_qc leaf_chain))) (reverse leaf_chain)

module _ (N : NodeTypes) {D E : Type 0} (source : UpdateAvailabilityData N D E) where
  -- `.expect(..)` on a result, then an operation on its value.
  abbrev pub expect_ok :
      {A : Type 0}
      → Result (InconsistentLeafError N) A
      → (A → D × Result (Fault E) (Unit {0}))
      → D
      → D × Result (Fault E) (Unit {0})
  expect_ok (ok a) f d = f a
  expect_ok (err e) f d = (d, err panic)

  -- The body of the loop.
  unfoldable pub store_pair : D → N.QuorumCertificate × N.Leaf → D × Result (Fault E) (Unit {0})
  store_pair d (qc, leaf) = and_then (expect_ok (new_leaf N leaf qc) (source.insert_leaf d) d) λ d'.
      elim (N.get_block_payload leaf) [
        | some payload ↦ expect_ok (new_block N leaf qc payload) (source.insert_block d') d'
        | none ↦ (d', ok tt)
      ]

  unfoldable pub store_pairs :
      List (N.QuorumCertificate × N.Leaf) → D → D × Result (Fault E) (Unit {0})
  unfolding store_pair
  store_pairs [] d = (d, ok tt)
  store_pairs (p ∷ ps) d = and_then (store_pair d p) (store_pairs ps)

  unfoldable pub update : D → Event N → D × Result (Fault E) (Unit {0})
  unfolding store_pairs chronological
  update d (decide leaf_chain qc) = store_pairs (chronological N leaf_chain qc) d
  update d other = (d, ok tt)
