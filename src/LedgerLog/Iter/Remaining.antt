-- ===== src/LedgerLog/Iter/Remaining.antt =====
-- The iterator of src/data_source/ledger_log.rs against the list of the objects that it has left.
use hotshot_query_service.Prelude.{
  ℕ, ◌+◌, ◌-◌, ◌^◌, ◌≤◌, ◌<◌, ◌≡◌, sym, ◌∙◌, ap, ap₂, inl, inr, Option, List, ◌++◌, map, length,
  get_elem?, take, drop, leb, leb→le, leb-false→lt, Bool-cases, add_usize, map_option,
  length-append, length-take, length-drop, length-map, get_elem?-append_left,
  get_elem?-append_right, get_elem?-take, get_elem?-drop, get_elem?-map, drop-append_left,
  drop-append_right, drop-drop, drop-take, map-drop, arith,
}
use hotshot_query_service.LedgerLog.Iter.{Iter, load, nth, size_hint, count}

module _ {E T : Type 0} where
  -- What the iterator has left: the entries of the storage in front of the cache, then the cache.
  abbrev pub remaining : Iter E T → List (Option T)
  remaining it =
      take (it.cache_start - it.index) (map load it.store)
      ++ drop (it.index - it.cache_start) it.cache

  -- The storage reaches up to the start of the cache.
  abbrev pub IsFed : Iter E T → Type 0
  IsFed it = it.cache_start - it.index ≤ length it.store

  -- The number of objects left is the length that the iterator announces.
  pub count-remaining : (it : Iter E T) → IsFed it → count it ≡ length (remaining it)
  unfolding count size_hint
  count-remaining it h = omega (
    arith,
    length-append (take (it.cache_start - it.index) (map load it.store))
        (drop (it.index - it.cache_start) it.cache),
    length-take (it.cache_start - it.index) (map load it.store),
    length-map load it.store,
    length-drop (it.index - it.cache_start) it.cache,
  )

  module _ (it : Iter E T) (n : ℕ) (fed : IsFed it) where
    front : List (Option T)
    front = take (it.cache_start - it.index) (map load it.store)

    length-front : length front ≡ it.cache_start - it.index
    unfolding front
    length-front = omega (
      arith,
      length-take (it.cache_start - it.index) (map load it.store),
      length-map load it.store,
    )

    -- A position in the cache lies behind the entries that storage still has to yield.
    read_cache :
        it.cache_start ≤ it.index + n
        → get_elem? it.cache (it.index + n - it.cache_start) ≡ get_elem? (remaining it) n
    unfolding front
    read_cache h = sym (
        get_elem?-append_right front (drop (it.index - it.cache_start) it.cache) n
          (it.index + n - it.cache_start - (it.index - it.cache_start))
          (omega (arith, length-front))
        ∙ get_elem?-drop (it.index - it.cache_start) it.cache _
        ∙ ap (get_elem? it.cache) (omega arith))

    read_storage :
        it.index + n < it.cache_start
        → map_option load (get_elem? it.store n) ≡ get_elem? (remaining it) n
    unfolding front
    read_storage h = sym (
        get_elem?-append_left front (drop (it.index - it.cache_start) it.cache) n
          (omega (arith, length-front))
        ∙ get_elem?-take (it.cache_start - it.index) (map load it.store) n (omega arith)
        ∙ get_elem?-map load it.store n)

    pub nth-reads : it.index + n < 2 ^ 64 → (nth it n).0 ≡ get_elem? (remaining it) n
    unfolding nth
    nth-reads small = ground (arith, read_cache, read_storage)

    -- The index after the read is `j`.
    module _ (j : ℕ) (e : j ≡ it.index + n + 1) where
      pass_cache :
          it.cache_start ≤ it.index + n
          → remaining (record it { index = j }) ≡ drop (n + 1) (remaining it)
      unfolding front
      pass_cache h =
          let none_left : it.cache_start - j ≡ 0 = omega arith in
          ap (λ k. take k (map load it.store) ++ drop (j - it.cache_start) it.cache) none_left
          ∙ sym (
              drop-append_right (n + 1) (n + 1 - (it.cache_start - it.index)) front
                (drop (it.index - it.cache_start) it.cache) (omega (arith, length-front))
              ∙ drop-drop (it.index - it.cache_start) (n + 1 - (it.cache_start - it.index)) it.cache
              ∙ ap (λ k. drop k it.cache) (omega arith))

      pass_storage :
          it.index + n < it.cache_start
          → remaining (record it { index = j; store = drop (n + 1) it.store })
            ≡ drop (n + 1) (remaining it)
      unfolding front
      pass_storage h =
          ap (λ xs. take (it.cache_start - j) xs ++ drop (j - it.cache_start) it.cache)
            (map-drop load (n + 1) it.store)
          ∙ ap₂ (λ k m. take k (drop (n + 1) (map load it.store)) ++ drop m it.cache) (omega arith)
              (omega arith)
          ∙ sym (
              drop-append_left (n + 1) front (drop (it.index - it.cache_start) it.cache)
                (omega (arith, length-front))
              ∙ ap (λ xs. xs ++ drop (it.index - it.cache_start) it.cache)
                  (drop-take (n + 1) (it.cache_start - it.index) (map load it.store)))

    -- After a read the iterator has left what stood behind the object read.
    pub remaining-nth :
        it.index + n + 1 < 2 ^ 64
        → (remaining (nth it n).1 ≡ drop (n + 1) (remaining it)) × IsFed (nth it n).1
    unfolding nth
    remaining-nth small =
        let j : ℕ = add_usize (add_usize it.index n) 1 in
        let e : j ≡ it.index + n + 1 = omega arith in
        elim (Bool-cases (leb it.cache_start (add_usize it.index n))) [
          | inl cached ↦
              let h : it.cache_start ≤ it.index + n = omega (arith, leb→le _ _ cached) in
              rw cached (pass_cache j e h, omega arith)
          | inr stored ↦
              let h : it.index + n < it.cache_start = omega (arith, leb-false→lt _ _ stored) in
              rw stored (pass_storage j e h, omega (arith, length-drop (n + 1) it.store))
        ]

    -- The object read is the one `n` places on in what was left.
    pub index-nth : (nth it n).1.index ≡ add_usize (add_usize it.index n) 1
    unfolding nth
    index-nth = ground arith
