-- ===== src/Extension/Served.antt =====
-- A service over an extended data source behaves as one over the data source inside.
use hotshot_query_service.Prelude.{
  List, [], ◌∷◌, Option, none, some, Result, ok, err, Fault, error, and_then, map_fault, ◌≡◌, refl,
  ap, ◌∙◌,
}
use hotshot_query_service.NodeTypes.{NodeTypes}
use hotshot_query_service.Availability.QueryData.{InconsistentLeafError, new_leaf, new_block}
use hotshot_query_service.Update.{
  Event, decide, other, expect_ok, store_pair, store_pairs, chronological, update,
}
use hotshot_query_service.Update.Service.{VersionedSource, handle_event, serve}
use hotshot_query_service.Extension.{ExtensibleDataSource, new, pass_on, extended_versions}

module _ (N : NodeTypes) {D U E : Type 0} (inner : VersionedSource N D E) (u : U) where
  -- What a method of the data source inside leaves, with the user's data beside it.
  abbrev beside : {R : Type 0} → D × R → ExtensibleDataSource D U × R
  beside (d, res) = (new d u, res)

  abbrev ext : VersionedSource N (ExtensibleDataSource D U) E
  ext = extended_versions N inner

  and_then-beside :
      {F : Type 0} (s : D × Result F (Unit {0})) (f : D → D × Result F (Unit {0}))
      (g : ExtensibleDataSource D U → ExtensibleDataSource D U × Result F (Unit {0}))
      → ((d : D) → g (new d u) ≡ beside (f d))
      → and_then (beside s) g ≡ beside (and_then s f)
  and_then-beside (d, ok t) f g h = h d
  and_then-beside (d, err e) f g h = refl

  expect_ok-beside :
      {A : Type 0} (r : Result (InconsistentLeafError N) A)
      (f : A → D → D × Result (Fault E) (Unit {0})) (d : D)
      → expect_ok N ext.availability r (λ a. pass_on (λ x. f a x) (new d u)) (new d u)
        ≡ beside (expect_ok N inner.availability r (λ a. f a d) d)
  unfolding new
  expect_ok-beside (ok a) f d = refl
  expect_ok-beside (err e) f d = refl

  block-beside :
      (o : Option N.Payload) (d : D) (leaf : N.Leaf) (qc : N.QuorumCertificate)
      → ◌≡◌ {A = ExtensibleDataSource D U × Result (Fault E) (Unit {0})}
          (elim o [
            | some payload ↦
                expect_ok N ext.availability
                  (new_block N leaf qc payload)
                  (ext.availability.insert_block (new d u))
                  (new d u)
            | none ↦ (new d u, ok tt)
          ])
          (beside (elim o [
            | some payload ↦
                expect_ok N inner.availability
                  (new_block N leaf qc payload)
                  (inner.availability.insert_block d)
                  d
            | none ↦ (d, ok tt)
          ]))
  block-beside none d leaf qc = refl
  block-beside (some payload) d leaf qc =
      expect_ok-beside (new_block N leaf qc payload) (λ a x. inner.availability.insert_block x a) d

  store_pair-beside :
      (d : D) (p : N.QuorumCertificate × N.Leaf)
      → store_pair N ext.availability (new d u) p ≡ beside (store_pair N inner.availability d p)
  unfolding store_pair
  store_pair-beside d (qc, leaf) =
      ap
        (λ s. and_then s λ d'. elim (N.get_block_payload leaf) [
          | some payload ↦
              expect_ok N ext.availability (new_block N leaf qc payload)
                (ext.availability.insert_block d') d'
          | none ↦ (d', ok tt)
        ])
        (expect_ok-beside (new_leaf N leaf qc) (λ a x. inner.availability.insert_leaf x a) d)
      ∙ and_then-beside
          (expect_ok N inner.availability (new_leaf N leaf qc)
            (λ a. inner.availability.insert_leaf d a) d)
          _ _ (λ d'. block-beside (N.get_block_payload leaf) d' leaf qc)

  store_pairs-beside :
      (ps : List (N.QuorumCertificate × N.Leaf)) (d : D)
      → store_pairs N ext.availability ps (new d u) ≡ beside (store_pairs N inner.availability ps d)
  unfolding store_pairs
  store_pairs-beside [] d = refl
  store_pairs-beside (p ∷ ps) d =
      ap (λ s. and_then s (store_pairs N ext.availability ps)) (store_pair-beside d p)
      ∙ and_then-beside (store_pair N inner.availability d p) (store_pairs N inner.availability ps)
          (store_pairs N ext.availability ps) (store_pairs-beside ps)

  update-beside :
      (d : D) (event : Event N)
      → update N ext.availability (new d u) event ≡ beside (update N inner.availability d event)
  unfolding update
  update-beside d (decide chain qc) = store_pairs-beside (chronological N chain qc) d
  update-beside d other = refl

  handle_event-beside :
      (d : D) (event : Event N)
      → handle_event N ext (new d u) event ≡ beside (handle_event N inner d event)
  unfolding handle_event new
  handle_event-beside d event =
      ap (λ s. and_then s (λ d'. map_fault error (ext.commit d'))) (update-beside d event)
      ∙ and_then-beside (update N inner.availability d event)
          (λ d'. map_fault error (inner.commit d')) (λ d'. map_fault error (ext.commit d'))
          (λ d'. refl)

  -- A service over a data source with the user's data beside it ends as one over the data source
  -- alone does, with the same result, and leaves the user's data as it was.
  pub serve-beside :
      (events : List (Event N)) (d : D)
      → serve N ext events (new d u)
        ≡ (new (serve N inner events d).0 u, (serve N inner events d).1)
  unfolding serve
  serve-beside [] d = refl
  serve-beside (event ∷ events) d =
      ap (λ s. and_then s (serve N ext events)) (handle_event-beside d event)
      ∙ and_then-beside (handle_event N inner d event) (serve N inner events) (serve N ext events)
          (serve-beside events)
