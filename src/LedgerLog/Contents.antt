-- ===== src/LedgerLog/Contents.antt =====
-- What the log of src/data_source/ledger_log.rs holds after each operation: storage is a plain list,
-- and the cache is a suffix of it as long as no object in the middle has been filled in.
use hotshot_query_service.Prelude.{
  ℕ, zero, suc, ◌+◌, ◌-◌, max, ◌≤◌, ◌<◌, ◌≡◌, sym, ap, ap₂, ◌∙◌, subst, inl, inr, Option, none,
  some, [], ◌∷◌, ◌++◌, map, length, set, drop, leb, Bool-cases, ok, Result-cases, arith, replicate,
  pop_front, pop_front-drop, drop-append_left, append-nil, append_assoc, map-append, map-map,
  map_id, leb→le, if◌then◌else◌, length-append, length-map, Result,
}
use hotshot_query_service.AppendLog.{AppendLog, AppendLogLaws, IsOk}
use hotshot_query_service.LedgerLog.Iter.{load}
use hotshot_query_service.LedgerLog.Defs.{
  LedgerLog, push_cache, store_resource, pad, place, insert, commit_version, newly_available,
}
use hotshot_query_service.LedgerLog.Inv.{
  objects, IsValid, length-objects, store_resource-cases, store_resource-IsValid, stored, pad-suc,
  pad-keeps, len, insert-place,
}

module _ {E T : Type 0} (L : AppendLog E T) (laws : AppendLogLaws L) where
  -- The cache is the rest of the objects from `cache_start` on.
  abbrev pub IsCoherent : LedgerLog L → Type 0
  IsCoherent log = log.cache ≡ drop log.cache_start (objects L laws log)

  module _ (log : LedgerLog L) (r : Option T) where
    pub objects-store_resource :
        IsOk (store_resource L log r).1
        → objects L laws (store_resource L log r).0 ≡ objects L laws log ++ (r ∷ [])
    unfolding push_cache
    objects-store_resource good = elim (store_resource-cases L laws log r) [
      | inl (done, e) ↦
          rw
            (e, laws.iter-store log.store r done, laws.pending-store log.store r done, append_assoc)
      | inr (e, eq) ↦ absurd (rw (eq) at good)
    ]

    push_cache-cache :
        IsValid L laws log
        → IsCoherent log
        → (push_cache L (stored L laws log r) r).cache
          ≡ drop (push_cache L (stored L laws log r) r).cache_start (objects L laws log ++ (r ∷ []))
    unfolding push_cache
    push_cache-cache v c = elim (Bool-cases (leb log.cache_size (length log.cache))) [
      | inl full ↦
          let h = leb→le _ _ full in
          let e : suc log.cache_start ≡ log.cache_start + 1 = omega arith in
          rw full (
            ap (λ xs. pop_front xs ++ (r ∷ [])) c
            ∙ ap (λ xs. xs ++ (r ∷ [])) (pop_front-drop log.cache_start (objects L laws log))
            ∙ ap (λ k. drop k (objects L laws log) ++ (r ∷ [])) e
            ∙ sym (
                drop-append_left (log.cache_start + 1) (objects L laws log) (r ∷ [])
                  (omega (arith, length-objects L laws log v))))
      | inr room ↦ rw room (
          ap (λ xs. xs ++ (r ∷ [])) c
          ∙ sym (
              drop-append_left log.cache_start (objects L laws log) (r ∷ [])
                (omega (arith, length-objects L laws log v))))
    ]

    -- Storing an object keeps the cache a suffix of the objects.
    pub store_resource-IsCoherent :
        IsOk (store_resource L log r).1
        → IsValid L laws log
        → IsCoherent log
        → IsCoherent (store_resource L log r).0
    store_resource-IsCoherent good v c =
        rw (objects-store_resource good) (elim (store_resource-cases L laws log r) [
          | inl (done, e) ↦ rw e (push_cache-cache v c)
          | inr (e, eq) ↦ absurd (rw eq at good)
        ])

  pub objects-pad :
      (n : ℕ) (log : LedgerLog L)
      → IsOk (pad L n log).1
      → objects L laws (pad L n log).0 ≡ objects L laws log ++ replicate n none
  unfolding pad
  objects-pad zero log good = sym (append-nil (objects L laws log))
  objects-pad (suc n) log good =
      let (one, e) = pad-suc L laws n log good in
      rw
        (
          e,
          objects-pad n (store_resource L log none).0 (rw e at good),
          objects-store_resource log none one,
        )
        (append_assoc (objects L laws log) (none ∷ []) (replicate n none))

  -- Well-formed, with a cache that agrees with storage.
  abbrev pub IsSound : LedgerLog L → Type 0
  IsSound log = IsValid L laws log × IsCoherent log

  pub store_resource-IsSound :
      (log : LedgerLog L) (r : Option T)
      → IsOk (store_resource L log r).1
      → IsSound log
      → IsSound (store_resource L log r).0
  store_resource-IsSound log r good (v, c) =
      (store_resource-IsValid L laws log r good v, store_resource-IsCoherent log r good v c)

  pub pad-IsSound :
      (n : ℕ) (log : LedgerLog L) → IsOk (pad L n log).1 → IsSound log → IsSound (pad L n log).0
  pad-IsSound n log good s =
      pad-keeps L laws IsSound (λ l one w. store_resource-IsSound l none one w) n log good s

  module _ (log : LedgerLog L) (index : ℕ) (object : T) where
    pub place_at_end :
        IsOk (place L log index index object).1
        → IsOk (store_resource L log (some object)).1
          × ((place L log index index object).0 ≡ (store_resource L log (some object)).0)
    unfolding place
    place_at_end good = ground arith

  module _ (log : LedgerLog L) (index : ℕ) (object : T) where
    abbrev pub filled : LedgerLog L
    filled = (pad L (index - len L laws log) log).0

    pub insert_far :
        len L laws log ≤ index
        → IsOk (insert L log index object).1
        → IsOk (pad L (index - len L laws log) log).1
          × (insert L log index object ≡ place L filled index index object)
    insert_far far good =
        let m : max index (len L laws log) ≡ index = omega arith in
        subst
          (λ k.
            IsOk (pad L (k - len L laws log) log).1
            × (insert L log index object
                ≡ place L (pad L (k - len L laws log) log).0 k index object))
          m (insert-place L laws log index object good)

    -- A successful insert at or behind the end of a well-formed log appends placeholders up to the
    -- index and then the object, and the cache still agrees with storage.
    pub insert_at_end :
        len L laws log ≤ index
        → IsOk (insert L log index object).1
        → IsSound log
        → (objects L laws (insert L log index object).0
            ≡ objects L laws log ++ (replicate (index - len L laws log) none ++ (some object ∷ [])))
          × IsSound (insert L log index object).0
    insert_at_end far good s =
        let (padded_ok, e) = insert_far far good in
        let (one, p) = place_at_end filled index object (rw e at good) in
        let n = index - len L laws log in
        rw (e, p)
          (
            objects-store_resource filled (some object) one
                ∙ ap (λ xs. xs ++ (some object ∷ [])) (objects-pad n log padded_ok)
                ∙ append_assoc (objects L laws log) (replicate n none) (some object ∷ []),
            store_resource-IsSound filled (some object) one (pad-IsSound n log padded_ok s),
          )

    place_inside :
        (t : ℕ)
        → index < t
        → IsOk (place L log t index object).1
        → (place L log t index object).0 ≡ (
            if leb log.cache_start index
            then record log { cache = set log.cache (index - log.cache_start) (some object) }
            else log)
    unfolding place
    place_inside t lt good = ground arith

    -- An object that comes earlier in the chain changes nothing but its entry of the cache, if the
    -- cache reaches back to it; storage is not written.
    pub insert_inside :
        index < len L laws log
        → IsOk (insert L log index object).1
        → (insert L log index object).0 ≡ (
            if leb log.cache_start index
            then record log { cache = set log.cache (index - log.cache_start) (some object) }
            else log)
    unfolding insert pad
    insert_inside near good =
        let m : max index (len L laws log) ≡ len L laws log = omega arith in
        let z : max index (len L laws log) - len L laws log ≡ 0 = omega arith in
        let (_, e) = insert-place L laws log index object good in
        let e' : insert L log index object ≡ place L log (len L laws log) index object =
          e ∙ ap₂ (λ k t. place L (pad L k log).0 t index object) z m in
        rw e' (place_inside (len L laws log) near (rw e' at good))

  -- The log that `commit_version` broadcasts from.
  abbrev pub committed : LedgerLog L → LedgerLog L
  committed log = record log { store = (L.commit_version log.store).0; pending_inserts = 0 }

  -- A commit that succeeds also does so in storage.
  pub commit-IsOk :
      (log : LedgerLog L) → IsOk (commit_version L log).1 → IsOk (L.commit_version log.store).1
  unfolding commit_version
  commit-IsOk log good = elim (Result-cases (L.commit_version log.store).1) [
    | inl (u, e) ↦ rw e tt
    | inr (e, bad) ↦ absurd (rw (bad, commit_version) at good)
  ]

  pub commit_fields :
      (log : LedgerLog L)
      → IsOk (commit_version L log).1
      → (commit_version L log).0 ≡ record (committed log) {
        stream = log.stream ++ newly_available L (committed log);
        stream_pos = log.stream_pos + length (newly_available L (committed log));
      }
  unfolding commit_version
  commit_fields log good = ground arith

  -- A commit moves the pending objects to storage, and changes none.
  pub objects-committed :
      (log : LedgerLog L)
      → IsOk (commit_version L log).1
      → objects L laws (committed log) ≡ objects L laws log
  objects-committed log good =
      let done = commit-IsOk log good in
      let pend = laws.pending log.store in
      rw
        (
          laws.iter-commit log.store done,
          laws.pending-commit log.store done,
          map-append,
          append-nil,
        )
        (ap (λ xs. map load (L.iter log.store) ++ xs) (map-map load ok pend ∙ map_id pend))

  pub committed-IsSound :
      (log : LedgerLog L) → IsOk (commit_version L log).1 → IsSound log → IsSound (committed log)
  committed-IsSound log good (v, c) =
      let done = commit-IsOk log good in
      (
        record {
          size_pos = v.size_pos;
          bounded = v.bounded;
          counted = rw (laws.pending-commit log.store done);
          total = omega (
            arith,
            ap length (laws.iter-commit log.store done),
            length-append (L.iter log.store) (map ok (laws.pending log.store)),
            length-map {B = Result E (Option T)} ok (laws.pending log.store),
          );
        },
        c ∙ ap (drop log.cache_start) (sym (objects-committed log good)),
      )

  pub commit_version-IsSound :
      (log : LedgerLog L)
      → IsOk (commit_version L log).1
      → IsSound log
      → IsSound (commit_version L log).0
  commit_version-IsSound log good s =
      let (w, c) = committed-IsSound log good s in
      rw (commit_fields log good) (
        record { size_pos = w.size_pos; bounded = w.bounded; counted = w.counted; total = w.total },
        c,
      )
