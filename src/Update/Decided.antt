-- ===== src/Update/Decided.antt =====
-- The leaves that the loop of `run_standalone_service` in src/lib.rs stores, over any data source
-- that puts each leaf behind the earlier ones.
use hotshot_query_service.Prelude.{
  Option, none, some, List, [], ◌∷◌, ◌++◌, map, reverse, Result, ok, err, Fault, error, and_then,
  map_fault, ◌≡◌, refl, sym, ap, ◌∙◌, subst, append-nil, append_assoc, map-append, arith,
}
use hotshot_query_service.NodeTypes.{NodeTypes}
use hotshot_query_service.AppendLog.{IsOk}
use hotshot_query_service.Availability.QueryData.{
  LeafQueryData, BlockQueryData, InconsistentLeafError, new_leaf, new_block,
}
use hotshot_query_service.Update.{Event, decide, other, expect_ok, store_pair, store_pairs, update}
use hotshot_query_service.Update.Chain.{justified, chronological-justified}
use hotshot_query_service.Update.Service.{VersionedSource, handle_event, serve}

module _ (N : NodeTypes) where
  abbrev with_certificate : N.QuorumCertificate × N.Leaf → LeafQueryData N
  with_certificate (qc, leaf) = record { leaf = leaf; qc = qc }

  -- The leaves that an event decides, each with the certificate that references it, from the oldest
  -- to the most recent one.
  unfoldable pub decided : Event N → List (LeafQueryData N)
  unfolding justified
  decided (decide leaf_chain qc) = map with_certificate (reverse (justified N qc leaf_chain))
  decided other = []

  unfoldable pub all_decided : List (Event N) → List (LeafQueryData N)
  unfolding decided
  all_decided [] = []
  all_decided (event ∷ events) = decided event ++ all_decided events

-- A data source where `leaves` are the leaves that it holds, as values of `T`: an operation that
-- succeeds keeps `Holds`, only an insert of a leaf adds to them, at the end if the leaf fits there,
-- and a commit leads to `Committed`.
pub record Appends (N : NodeTypes) {D E T : Type 0} (source : VersionedSource N D E)
    (value : LeafQueryData N → T) (Fits : List T → LeafQueryData N → Type 0)
    (Holds Committed : D → Type 0) (leaves : D → List T) : Type 0 where
  pub leaf_added :
      (d : D) (l : LeafQueryData N)
      → Holds d
      → Fits (leaves d) l
      → IsOk (source.availability.insert_leaf d l).1
      → Holds (source.availability.insert_leaf d l).0
        × (leaves (source.availability.insert_leaf d l).0 ≡ leaves d ++ (value l ∷ []))
  pub block_added :
      (d : D) (b : BlockQueryData N)
      → Holds d
      → IsOk (source.availability.insert_block d b).1
      → Holds (source.availability.insert_block d b).0
        × (leaves (source.availability.insert_block d b).0 ≡ leaves d)
  pub committed :
      (d : D)
      → Holds d
      → IsOk (source.commit d).1
      → Holds (source.commit d).0
        × Committed (source.commit d).0
        × (leaves (source.commit d).0 ≡ leaves d)

module _ (N : NodeTypes) {T : Type 0} (value : LeafQueryData N → T)
    (Fits : List T → LeafQueryData N → Type 0) where
  -- Each leaf fits behind those before it.
  abbrev pub AllFit : List T → List (LeafQueryData N) → Type 0
  AllFit xs [] = Unit
  AllFit xs (l ∷ ls) = Fits xs l × AllFit (xs ++ (value l ∷ [])) ls

  AllFit-append :
      (xs : List T) (ls ms : List (LeafQueryData N))
      → AllFit xs (ls ++ ms)
      → AllFit xs ls × AllFit (xs ++ map value ls) ms
  AllFit-append xs [] ms fit = (tt, subst (λ ys. AllFit ys ms) (sym (append-nil xs)) fit)
  AllFit-append xs (l ∷ ls) ms (fits, fit) =
      let (front, back) = AllFit-append (xs ++ (value l ∷ [])) ls ms fit in
      (
        (fits, front),
        subst (λ ys. AllFit ys ms) (append_assoc xs (value l ∷ []) (map value ls)) back,
      )

module _ (N : NodeTypes) {D E T : Type 0} (source : VersionedSource N D E)
    (value : LeafQueryData N → T) (Fits : List T → LeafQueryData N → Type 0)
    (Holds Committed : D → Type 0) (leaves : D → List T)
    (laws : Appends N source value Fits Holds Committed leaves) where
  -- A call on the state `d`, if it succeeds, adds the leaves `ls` and leads to `P`.
  abbrev Adds : (D → Type 0) → D → List T → {F : Type 0} → D × Result F (Unit {0}) → Type 0
  Adds P d ls s = IsOk s.1 → P s.0 × (leaves s.0 ≡ leaves d ++ ls)

  and_then-Adds :
      (P Q : D → Type 0) {F : Type 0} (d : D) (xs ys : List T) (s : D × Result F (Unit {0}))
      (f : D → D × Result F (Unit {0}))
      → Adds P d xs s
      → ((d' : D) → P d' → leaves d' ≡ leaves d ++ xs → Adds Q d' ys (f d'))
      → Adds Q d (xs ++ ys) (and_then s f)
  and_then-Adds P Q d xs ys (d', ok u) f first next good =
      let (h, e) = first tt in
      let (h', e') = next d' h e good in
      (h', e' ∙ ap (λ zs. zs ++ ys) e ∙ append_assoc (leaves d) xs ys)
  and_then-Adds P Q d xs ys (d', err e) f first next good = absurd good

  expect_ok-Adds :
      {A : Type 0} (d : D) (ls : List T) (r : Result (InconsistentLeafError N) A)
      (f : A → D × Result (Fault E) (Unit {0}))
      → ((a : A) → r ≡ ok a → Adds Holds d ls (f a))
      → Adds Holds d ls (expect_ok N source.availability r f d)
  expect_ok-Adds d ls (ok a) f each good = each a refl good
  expect_ok-Adds d ls (err e) f each good = absurd good

  new_leaf-with_certificate :
      (leaf : N.Leaf) (qc : N.QuorumCertificate) (l : LeafQueryData N)
      → new_leaf N leaf qc ≡ ok l
      → with_certificate N (qc, leaf) ≡ l
  unfolding new_leaf
  new_leaf-with_certificate leaf qc l e = ground arith

  -- The leaf of a pair.
  leaf_step :
      (leaf : N.Leaf) (qc : N.QuorumCertificate) (d : D)
      → Holds d
      → Fits (leaves d) (with_certificate N (qc, leaf))
      → Adds Holds d (value (with_certificate N (qc, leaf)) ∷ []) (
          expect_ok N source.availability
            (new_leaf N leaf qc)
            (source.availability.insert_leaf d)
            d)
  leaf_step leaf qc d h fits =
      expect_ok-Adds d (value (with_certificate N (qc, leaf)) ∷ []) (new_leaf N leaf qc)
        (source.availability.insert_leaf d)
        λ l e good.
          let same = new_leaf-with_certificate leaf qc l e in
          let (h', added) = laws.leaf_added d l h (subst (Fits (leaves d)) same fits) good in
          (h', added ∙ ap (λ m. leaves d ++ (value m ∷ [])) (sym same))

  block_step :
      (o : Option N.Payload) (d : D) (leaf : N.Leaf) (qc : N.QuorumCertificate)
      → Holds d
      → Adds Holds d [] {F = Fault E} (elim o as (λ _. D × Result (Fault E) (Unit {0})) [
        | some payload ↦
            expect_ok N source.availability
              (new_block N leaf qc payload)
              (source.availability.insert_block d)
              d
        | none ↦ (d, ok tt)
      ])
  block_step none d leaf qc h = λ good. (h, sym (append-nil (leaves d)))
  block_step (some payload) d leaf qc h =
      expect_ok-Adds d [] (new_block N leaf qc payload) (source.availability.insert_block d)
        λ b e good.
          let (h', kept) = laws.block_added d b h good in (h', kept ∙ sym (append-nil (leaves d)))

  store_pair-Adds :
      (p : N.QuorumCertificate × N.Leaf) (d : D)
      → Holds d
      → Fits (leaves d) (with_certificate N p)
      → Adds Holds d (value (with_certificate N p) ∷ []) (store_pair N source.availability d p)
  unfolding store_pair
  store_pair-Adds (qc, leaf) d h fits =
      and_then-Adds Holds Holds d (value (with_certificate N (qc, leaf)) ∷ []) []
        (expect_ok N source.availability (new_leaf N leaf qc) (source.availability.insert_leaf d) d)
        _ (leaf_step leaf qc d h fits)
        (λ d' h' e. block_step (N.get_block_payload leaf) d' leaf qc h')

  store_pairs-Adds :
      (ps : List (N.QuorumCertificate × N.Leaf)) (d : D)
      → Holds d
      → AllFit N value Fits (leaves d) (map (with_certificate N) ps)
      → Adds Holds d
          (map value (map (with_certificate N) ps))
          (store_pairs N source.availability ps d)
  unfolding store_pairs
  store_pairs-Adds [] d h fit = λ good. (h, sym (append-nil (leaves d)))
  store_pairs-Adds (p ∷ ps) d h (fits, fit) =
      let after = map (with_certificate N) ps in
      and_then-Adds Holds Holds d (value (with_certificate N p) ∷ []) (map value after)
        (store_pair N source.availability d p) (store_pairs N source.availability ps)
        (store_pair-Adds p d h fits)
        (λ d' h' e.
          store_pairs-Adds ps d' h' (subst (λ xs. AllFit N value Fits xs after) (sym e) fit))

  update-Adds :
      (event : Event N) (d : D)
      → Holds d
      → AllFit N value Fits (leaves d) (decided N event)
      → Adds Holds d (map value (decided N event)) (update N source.availability d event)
  unfolding update decided
  update-Adds (decide leaf_chain qc) d h fit =
      rw (chronological-justified N qc leaf_chain)
        (store_pairs-Adds (reverse (justified N qc leaf_chain)) d h fit)
  update-Adds other d h fit = λ good. (h, sym (append-nil (leaves d)))

  abbrev Settled : D → Type 0
  Settled d = Holds d × Committed d

  commit_step :
      (d : D) (s : D × Result E (Unit {0}))
      → (IsOk s.1 → Holds s.0 × Committed s.0 × (leaves s.0 ≡ leaves d))
      → Adds Settled d [] (map_fault (λ (e : E). error e) s)
  commit_step d (d', ok u) after good =
      let (h, c, e) = after tt in ((h, c), e ∙ sym (append-nil (leaves d)))
  commit_step d (d', err e) after good = absurd good

  handle_event-Adds :
      (event : Event N) (d : D)
      → Holds d
      → AllFit N value Fits (leaves d) (decided N event)
      → Adds Settled d (map value (decided N event)) (handle_event N source d event)
  unfolding handle_event
  handle_event-Adds event d h fit =
      subst (λ ls. Adds Settled d ls (handle_event N source d event))
        (append-nil (map value (decided N event)))
        (and_then-Adds Holds Settled d (map value (decided N event)) []
          (update N source.availability d event) (λ d'. map_fault error (source.commit d'))
          (update-Adds event d h fit)
          (λ d' h' e. commit_step d' (source.commit d') (laws.committed d' h')))

  serve-Adds :
      (events : List (Event N)) (d : D)
      → Settled d
      → AllFit N value Fits (leaves d) (all_decided N events)
      → Adds Settled d (map value (all_decided N events)) (serve N source events d)
  unfolding serve all_decided
  serve-Adds [] d h fit = λ good. (h, sym (append-nil (leaves d)))
  serve-Adds (event ∷ events) d h fit =
      let rest = all_decided N events in
      let (front, back) = AllFit-append N value Fits (leaves d) (decided N event) rest fit in
      subst (λ ls. Adds Settled d ls (serve N source (event ∷ events) d))
        (sym (map-append value (decided N event) rest))
        (and_then-Adds Settled Settled d (map value (decided N event)) (map value rest)
          (handle_event N source d event) (serve N source events)
          (handle_event-Adds event d h.0 front)
          (λ d' h' e.
            serve-Adds events d' h' (subst (λ xs. AllFit N value Fits xs rest) (sym e) back)))

  -- The service, if it has handled all its events, has added the leaves that they decide.
  pub serve-adds :
      (events : List (Event N)) (d : D)
      → Holds d
      → Committed d
      → AllFit N value Fits (leaves d) (all_decided N events)
      → IsOk (serve N source events d).1
      → Holds (serve N source events d).0
        × Committed (serve N source events d).0
        × (leaves (serve N source events d).0 ≡ leaves d ++ map value (all_decided N events))
  serve-adds events d h c fit good =
      let ((h', c'), e) = serve-Adds events d (h, c) fit good in (h', c', e)
