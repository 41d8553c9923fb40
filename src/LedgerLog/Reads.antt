-- ===== src/LedgerLog/Reads.antt =====
-- What is read through the iterator of src/data_source/ledger_log.rs, and what a revert leaves.
use hotshot_query_service.Prelude.{
  ℕ, zero, suc, ◌-◌, ◌^◌, ◌≤◌, ◌<◌, ◌≡◌, refl, sym, ap, ap₂, ◌∙◌, subst, inl, inr, Option, some,
  List, [], ◌++◌, map, length, set, drop, take, get_elem?, ok, Result-cases, length-map,
  length-drop, arith, length-take, pop_back, drop-append_left, append-nil, take-take,
  take-length-append, take-append-drop, take-append_left, pop_back-eq-take, length-pop_back, le→leb,
  set-append_right, map-drop, take_of_length-le,
}
use hotshot_query_service.AppendLog.{AppendLog, AppendLogLaws, IsOk}
use hotshot_query_service.LedgerLog.Iter.{load, nth, count}
use hotshot_query_service.LedgerLog.Iter.Remaining.{remaining, nth-reads, count-remaining}
use hotshot_query_service.LedgerLog.Defs.{
  commit_version, LedgerLog, opened, open_log, insert, revert_version, repeat_pop_back, iter,
}
use hotshot_query_service.LedgerLog.Inv.{objects, len, revert_version-IsValid, open_log-IsValid}
use hotshot_query_service.LedgerLog.Contents.{
  commit_fields, objects-committed, committed, committed-IsSound, commit_version-IsSound, IsSound,
  insert_inside,
}

repeat_pop_back-eq-take {ℓ} :
    {A : Type ℓ} (n : ℕ) (xs : List A) → repeat_pop_back n xs ≡ take (length xs - n) xs
unfolding repeat_pop_back
repeat_pop_back-eq-take zero xs = sym (take_of_length-le (length xs - 0) xs (omega arith))
repeat_pop_back-eq-take (suc n) xs =
    repeat_pop_back-eq-take n (pop_back xs)
    ∙ ap₂ take (omega (arith, length-pop_back xs)) (pop_back-eq-take xs)
    ∙ take-take (length xs - suc n) (length xs - 1) xs (omega arith)

module _ {E T : Type 0} (L : AppendLog E T) (laws : AppendLogLaws L) where
  -- Everything in front of the cache is in storage. So it is after every commit.
  abbrev pub IsSettled : LedgerLog L → Type 0
  IsSettled log = log.cache_start ≤ length (L.iter log.store)

  -- A new iterator has left the objects in storage in front of the cache, then the cache.
  iter-left :
      (log : LedgerLog L)
      → remaining (iter L log) ≡ take log.cache_start (map load (L.iter log.store)) ++ log.cache
  unfolding iter
  iter-left log =
      let z : log.cache_start - 0 ≡ log.cache_start = omega arith in
      let y : 0 - log.cache_start ≡ 0 = omega arith in
      ap₂ (λ k m. take k (map load (L.iter log.store)) ++ drop m log.cache) z y

  -- The iterator of a sound, settled log has all the objects left, in order.
  pub remaining-iter :
      (log : LedgerLog L)
      → IsSound L laws log
      → IsSettled log
      → remaining (iter L log) ≡ objects L laws log
  remaining-iter log (v, c) h =
      let front = map load (L.iter log.store) in
      iter-left log
      ∙ ap₂ (λ xs ys. xs ++ ys)
          (sym (
            take-append_left log.cache_start front (laws.pending log.store)
              (omega (arith, length-map load (L.iter log.store)))))
          c
      ∙ take-append-drop log.cache_start (objects L laws log)

  -- Reading an index below 2^64 of a well-formed log whose storage holds everything in front of
  -- the cache gives the object at that index in the list of its objects.
  pub nth-iter :
      (log : LedgerLog L) (n : ℕ)
      → IsSound L laws log
      → IsSettled log
      → n < 2 ^ 64
      → (nth (iter L log) n).0 ≡ get_elem? (objects L laws log) n
  unfolding iter
  nth-iter log n s h small =
      nth-reads (iter L log) n (omega arith) (omega arith)
      ∙ ap (λ xs. get_elem? xs n) (remaining-iter log s h)

  -- The length that the iterator of a well-formed log announces is its number of objects, when
  -- storage holds everything in front of the cache.
  pub count-iter :
      (log : LedgerLog L)
      → IsSound L laws log
      → IsSettled log
      → count (iter L log) ≡ length (objects L laws log)
  unfolding iter
  count-iter log s h =
      count-remaining (iter L log) (omega arith) ∙ ap length (remaining-iter log s h)

  -- A successful insert at an index that the cache reaches back to, in a log whose storage holds
  -- everything in front of the cache, changes what the iterator reads at that index to the object
  -- and nothing else.
  pub insert_inside-reads :
      (log : LedgerLog L) (index : ℕ) (object : T)
      → index < len L laws log
      → log.cache_start ≤ index
      → IsOk (insert L log index object).1
      → IsSettled log
      → remaining (iter L (insert L log index object).0)
        ≡ set (remaining (iter L log)) index (some object)
  insert_inside-reads log index object near cached good h =
      let front = take log.cache_start (map load (L.iter log.store)) in
      let e : (insert L log index object).0
          ≡ record log { cache = set log.cache (index - log.cache_start) (some object) } =
        insert_inside L laws log index object near good ∙ rw (le→leb _ _ cached) in
      rw (e, iter-left, iter-left)
        (sym (
          set-append_right front log.cache index (index - log.cache_start) (some object) (
            omega (
              arith,
              length-take log.cache_start (map load (L.iter log.store)),
              length-map load (L.iter log.store),
            ))))

  -- After a commit everything in front of the cache is in storage.
  pub committed-IsSettled :
      (log : LedgerLog L)
      → IsOk (commit_version L log).1
      → IsSound L laws log
      → IsSettled (committed L laws log)
  committed-IsSettled log good s =
      let (w, _) = committed-IsSound L laws log good s in omega (arith, w.total)

  -- A successful commit of a well-formed log keeps its objects and its agreement with storage, and
  -- leaves everything in front of the cache in storage.
  pub commit_version_lem :
      (log : LedgerLog L)
      → IsOk (commit_version L log).1
      → IsSound L laws log
      → (objects L laws (commit_version L log).0 ≡ objects L laws log)
        × IsSound L laws (commit_version L log).0
        × IsSettled (commit_version L log).0
  commit_version_lem log good s =
      let f = commit_fields L laws log good in
      (
        rw f (objects-committed L laws log good),
        commit_version-IsSound L laws log good s,
        rw f (committed-IsSettled log good s),
      )

  pub revert-IsOk :
      (log : LedgerLog L) → IsOk (revert_version L log).1 → IsOk (L.revert_version log.store).1
  unfolding revert_version
  revert-IsOk log good = elim (Result-cases (L.revert_version log.store).1) [
    | inl (u, e) ↦ rw e tt
    | inr (e, bad) ↦ absurd (rw (bad, revert_version) at good)
  ]

  pub revert_fields :
      (log : LedgerLog L)
      → IsOk (revert_version L log).1
      → ((revert_version L log).0.store ≡ (L.revert_version log.store).0)
        × ((revert_version L log).0.cache ≡ repeat_pop_back log.pending_inserts log.cache)
        × ((revert_version L log).0.cache_start ≡ log.cache_start)
        × ((revert_version L log).0.stream ≡ log.stream)
        × ((revert_version L log).0.stream_pos ≡ log.stream_pos)
  unfolding revert_version
  revert_fields log good = ground arith

  -- A successful revert of a well-formed log whose pending objects are all in the cache drops
  -- exactly the objects stored since the last version, and the cache still agrees with storage.
  pub revert_version_lem :
      (log : LedgerLog L)
      → IsOk (revert_version L log).1
      → log.pending_inserts ≤ length log.cache
      → IsSound L laws log
      → (objects L laws (revert_version L log).0 ≡ map load (L.iter log.store))
        × IsSound L laws (revert_version L log).0
  revert_version_lem log good cached (v, c) = (
    back,
    (
      revert_version-IsValid L laws log good cached v,
      ec
          ∙ repeat_pop_back-eq-take log.pending_inserts log.cache
          ∙ ap₂ take n c'
          ∙ take-length-append (drop log.cache_start front) pend
          ∙ ap₂ drop (sym ef) (sym back),
    ),
  )
    where
      front : List (Option T)
      front = map load (L.iter log.store)

      pend : List (Option T)
      pend = laws.pending log.store

      fields :
          ((revert_version L log).0.store ≡ (L.revert_version log.store).0)
          × ((revert_version L log).0.cache ≡ repeat_pop_back log.pending_inserts log.cache)
          × ((revert_version L log).0.cache_start ≡ log.cache_start)
          × ((revert_version L log).0.stream ≡ log.stream)
          × ((revert_version L log).0.stream_pos ≡ log.stream_pos)
      fields = revert_fields log good

      ec : (revert_version L log).0.cache ≡ repeat_pop_back log.pending_inserts log.cache
      ec = fields.1

      ef : (revert_version L log).0.cache_start ≡ log.cache_start
      ef = fields.2

      back : objects L laws (revert_version L log).0 ≡ front
      back =
          rw
            (
              fields.0,
              laws.iter-revert log.store (revert-IsOk log good),
              laws.pending-revert log.store (revert-IsOk log good),
            )
            (append-nil front)

      n : length log.cache - log.pending_inserts ≡ length (drop log.cache_start front)
      n = omega (arith, length-drop log.cache_start front, length-map load (L.iter log.store))

      c' : log.cache ≡ drop log.cache_start front ++ pend
      c' =
          c
          ∙ drop-append_left log.cache_start front pend
              (omega (arith, length-map load (L.iter log.store)))

  pub opened_start :
      (s : L.Store) (cache_size : ℕ) → (opened L s cache_size).cache_start ≤ length (L.iter s)
  unfolding opened
  opened_start s cache_size = ground arith

  opened_cache :
      (s : L.Store) (cache_size : ℕ)
      → (opened L s cache_size).cache
        ≡ drop (opened L s cache_size).cache_start (map load (L.iter s))
  unfolding opened
  opened_cache s cache_size = map-drop load _ (L.iter s)

  -- A log opened with a positive cache size from a store with nothing pending holds the objects
  -- that storage yields, is well-formed with a cache that agrees with storage, and everything in
  -- front of the cache is in storage.
  pub open_log-IsSound :
      (s : L.Store) (cache_size : ℕ) {log : LedgerLog L}
      → laws.pending s ≡ []
      → 0 < cache_size
      → open_log L (ok s) cache_size ≡ ok log
      → (objects L laws log ≡ map load (L.iter s)) × IsSound L laws log × IsSettled log
  unfolding open_log
  open_log-IsSound s cache_size {log} none_pending pos e =
      let o = opened L s cache_size in
      let same : objects L laws o ≡ map load (L.iter s) =
        rw none_pending (append-nil (map load (L.iter s))) in
      let all : (objects L laws o ≡ map load (L.iter s)) × IsSound L laws o × IsSettled o = (
        same,
        (
          open_log-IsValid L laws s cache_size none_pending pos refl,
          opened_cache s cache_size ∙ ap (drop o.cache_start) (sym same),
        ),
        opened_start s cache_size,
      ) in
      let eq : o ≡ log = cc in
      subst (λ l. (objects L laws l ≡ map load (L.iter s)) × IsSound L laws l × IsSettled l) eq all
