-- ===== src/LedgerLog/Inv.antt =====
-- Well-formedness of the log of src/data_source/ledger_log.rs, kept by its operations.
use hotshot_query_service.Prelude.{
  ℕ, zero, suc, ◌+◌, ◌-◌, max, ◌≤◌, ◌<◌, ◌≡◌, refl, inl, inr, Option, none, some, List, [], ◌∷◌,
  ◌++◌, map, length, drop, Result, ok, err, Result-cases, map_err, error, length-append, length-map,
  length-drop, length-set, length-pop_front, length-pop_back, pop_back, pop_front, ◌⊎◌, arith,
}
use hotshot_query_service.AppendLog.{AppendLog, AppendLogLaws, IsOk}
use hotshot_query_service.LedgerLog.Iter.{load}
use hotshot_query_service.LedgerLog.Defs.{
  LedgerLog, create, open_log, push_cache, store_resource, pad, place, insert, revert_version,
  repeat_pop_back,
}

module _ {E T : Type 0} (L : AppendLog E T) (laws : AppendLogLaws L) where
  -- The objects in storage, then those stored since the last version.
  abbrev pub objects : LedgerLog L → List (Option T)
  objects log = map load (L.iter log.store) ++ laws.pending log.store

  pub record IsValid (log : LedgerLog L) : Type 0 where
    pub size_pos : 0 < log.cache_size
    pub bounded : length log.cache ≤ log.cache_size
    pub counted : log.pending_inserts ≡ length (laws.pending log.store)
    pub total : log.cache_start + length log.cache ≡ length (L.iter log.store) + log.pending_inserts

  pub length-objects :
      (log : LedgerLog L) → IsValid log → length (objects log) ≡ log.cache_start + length log.cache
  length-objects log v = omega (
    arith,
    length-append (map load (L.iter log.store)) (laws.pending log.store),
    length-map load (L.iter log.store),
  )

  pub create-IsValid :
      (s : L.Store) (cache_size : ℕ) {log : LedgerLog L}
      → L.iter s ≡ []
      → laws.pending s ≡ []
      → 0 < cache_size
      → create L (ok s) cache_size ≡ ok log
      → IsValid log
  unfolding create
  create-IsValid s cache_size fresh none_pending pos e = ground arith

  pub open_log-IsValid :
      (s : L.Store) (cache_size : ℕ) {log : LedgerLog L}
      → laws.pending s ≡ []
      → 0 < cache_size
      → open_log L (ok s) cache_size ≡ ok log
      → IsValid log
  unfolding open_log
  open_log-IsValid s cache_size none_pending pos e = ground (
    arith,
    length-map (load {E = E} {T = T}) (drop (length (L.iter s) - cache_size) (L.iter s)),
    length-map (load {E = E} {T = T}) (L.iter s),
    length-drop (length (L.iter s) - cache_size) (L.iter s),
  )

  module _ (log : LedgerLog L) (r : Option T) where
    abbrev pub stored : LedgerLog L
    stored = record log { store = (L.store_resource log.store r).0 }

    -- A call of `store_resource` ends in one of two ways.
    pub store_resource-cases :
        (IsOk (L.store_resource log.store r).1
          × (store_resource L log r ≡ (push_cache L stored r, ok tt)))
        ⊎ ((e : E) × (store_resource L log r ≡ (stored, err e)))
    unfolding store_resource
    store_resource-cases = elim (Result-cases (L.store_resource log.store r).1) [
      | inl (u, good) ↦ inl (rw good tt, rw (good, store_resource) refl)
      | inr (e, bad) ↦ inr (e, rw (bad, store_resource) refl)
    ]

    push_cache-IsValid :
        IsOk (L.store_resource log.store r).1 → IsValid log → IsValid (push_cache L stored r)
    unfolding push_cache
    push_cache-IsValid good v = ground (
      arith,
      laws.iter-store log.store r good,
      laws.pending-store log.store r good,
      length-append (laws.pending log.store) (r ∷ []),
      length-append log.cache (r ∷ []),
      length-append (pop_front log.cache) (r ∷ []),
      length-pop_front log.cache,
    )

    pub store_resource-IsValid :
        IsOk (store_resource L log r).1 → IsValid log → IsValid (store_resource L log r).0
    store_resource-IsValid good v = elim store_resource-cases [
      | inl (done, e) ↦ rw e (push_cache-IsValid done v)
      | inr (e, eq) ↦ absurd (rw eq at good)
    ]

  pub pad-suc :
      (n : ℕ) (log : LedgerLog L)
      → IsOk (pad L (suc n) log).1
      → IsOk (store_resource L log none).1
        × (pad L (suc n) log ≡ pad L n (store_resource L log none).0)
  unfolding pad
  pad-suc n log good = elim (Result-cases (store_resource L log none).1) [
    | inl (u, e) ↦ (rw e tt, rw (e, pad) refl)
    | inr (e, eq) ↦ absurd (rw (eq, pad) at good)
  ]

  -- What every successful `store_resource` of a placeholder keeps, a successful padding keeps.
  pub pad-keeps {ℓ} :
      (P : LedgerLog L → Type ℓ)
      → ((log : LedgerLog L)
          → IsOk (store_resource L log none).1
          → P log
          → P (store_resource L log none).0)
      → (n : ℕ) (log : LedgerLog L) → IsOk (pad L n log).1
      → P log
      → P (pad L n log).0
  unfolding pad
  pad-keeps P step zero log good v = v
  pad-keeps P step (suc n) log good v =
      let (one, e) = pad-suc n log good in
      rw e (pad-keeps P step n (store_resource L log none).0 (rw e at good) (step log one v))

  IsOk-map_err : {F G : Type 0} (f : F → G) (r : Result F (Unit {0})) → IsOk (map_err f r) → IsOk r
  IsOk-map_err f (ok u) h = tt
  IsOk-map_err f (err e) h = h

  module _ (log : LedgerLog L) (target_len index : ℕ) (object : T) where
    pub place-IsValid :
        IsOk (place L log target_len index object).1
        → IsValid log
        → IsValid (place L log target_len index object).0
    unfolding place
    place-IsValid good v = ground (
      arith,
      store_resource-IsValid log (some object),
      IsOk-map_err {F = E} error (store_resource L log (some object)).1,
      length-set log.cache (index - log.cache_start) (some object),
    )

  -- The number of objects, and the length that `insert` pads the log to.
  abbrev pub len : LedgerLog L → ℕ
  len log = length (L.iter log.store) + log.pending_inserts

  abbrev pub padded : LedgerLog L → ℕ → LedgerLog L
  padded log index = (pad L (max index (len log) - len log) log).0

  -- A successful `insert` pads the log, then places the object.
  pub insert-place :
      (log : LedgerLog L) (index : ℕ) (object : T)
      → IsOk (insert L log index object).1
      → IsOk (pad L (max index (len log) - len log) log).1
        × (insert L log index object
            ≡ place L (padded log index) (max index (len log)) index object)
  unfolding insert
  insert-place log index object good =
      elim (Result-cases (pad L (max index (len log) - len log) log).1) [
        | inl (u, e) ↦ (rw e tt, rw (e, insert) refl)
        | inr (e, bad) ↦ absurd (rw (bad, insert) at good)
      ]

  -- A successful `insert` keeps the log well-formed.
  pub insert-IsValid :
      (log : LedgerLog L) (index : ℕ) (object : T)
      → IsOk (insert L log index object).1
      → IsValid log
      → IsValid (insert L log index object).0
  insert-IsValid log index object good v =
      let (filled, e) = insert-place log index object good in
      rw e (
        place-IsValid (padded log index) (max index (len log)) index object (rw e at good)
          (pad-keeps IsValid (λ l one w. store_resource-IsValid l none one w) _ log filled v))

  length-repeat_pop_back :
      {A : Type 0} (n : ℕ) (xs : List A) → length (repeat_pop_back n xs) ≡ length xs - n
  unfolding repeat_pop_back
  length-repeat_pop_back zero xs = omega arith
  length-repeat_pop_back (suc n) xs =
      omega (arith, length-repeat_pop_back n (pop_back xs), length-pop_back xs)

  -- A successful revert keeps the log well-formed, if what it drops is still in the cache.
  pub revert_version-IsValid :
      (log : LedgerLog L)
      → IsOk (revert_version L log).1
      → log.pending_inserts ≤ length log.cache
      → IsValid log
      → IsValid (revert_version L log).0
  unfolding revert_version
  revert_version-IsValid log good cached v = elim (Result-cases (L.revert_version log.store).1) [
    | inl (u, e) ↦
        let done : IsOk (L.revert_version log.store).1 = rw e tt in
        rw (e, revert_version)
          (ground (
            arith,
            laws.iter-revert log.store done,
            laws.pending-revert log.store done,
            length-repeat_pop_back log.pending_inserts log.cache,
          ))
    | inr (e, bad) ↦ absurd (rw (bad, revert_version) at good)
  ]
