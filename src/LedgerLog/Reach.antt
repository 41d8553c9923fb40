-- ===== src/LedgerLog/Reach.antt =====
-- Every log of src/data_source/ledger_log.rs that is reached by appending, committing and reverting.
use hotshot_query_service.Prelude.{
  ℕ, ◌≤◌, ◌<◌, ◌≡◌, refl, sym, ap, ap₂, ◌∙◌, List, [], ◌∷◌, ◌++◌, map, length, take, Option, none,
  some, Result, ok, err, arith, inl, inr, append-nil, subst, take-append_left, length-map,
}
use hotshot_query_service.AppendLog.{AppendLog, AppendLogLaws, IsOk}
use hotshot_query_service.LedgerLog.Iter.{load}
use hotshot_query_service.LedgerLog.Defs.{
  LedgerLog, opened, open_log, position, is_unavailable, or_else, store_resource, insert,
  commit_version, revert_version, push_cache,
}
use hotshot_query_service.LedgerLog.Inv.{objects, len, store_resource-cases, pad-keeps}
use hotshot_query_service.LedgerLog.Contents.{
  IsSound, insert_far, store_resource-IsSound, insert_at_end, objects-store_resource, filled,
  place_at_end, commit_version-IsSound,
}
use hotshot_query_service.LedgerLog.Broadcast.{
  IsStreaming, IsSmall, grow-IsStreaming, commit_version-IsStreaming,
}
use hotshot_query_service.LedgerLog.Reads.{
  revert_version_lem, open_log-IsSound, revert_fields, revert-IsOk,
}
use hotshot_query_service.LedgerLog.Stream.{some_prefix, take-some_prefix, length-some_prefix}

module _ {E T : Type 0} (L : AppendLog E T) (laws : AppendLogLaws L) where
  store_fields :
      (log : LedgerLog L) (r : Option T)
      → IsOk (store_resource L log r).1
      → ((store_resource L log r).0.stream ≡ log.stream)
        × ((store_resource L log r).0.stream_pos ≡ log.stream_pos)
        × (L.iter (store_resource L log r).0.store ≡ L.iter log.store)
  unfolding push_cache
  store_fields log r good = elim (store_resource-cases L laws log r) [
    | inl (done, e) ↦ rw e (refl, refl, laws.iter-store log.store r done)
    | inr (e, eq) ↦ absurd (rw eq at good)
  ]

  store_resource-IsStreaming :
      (base : List T) (log : LedgerLog L) (r : Option T)
      → IsOk (store_resource L log r).1
      → IsStreaming L laws base log
      → IsStreaming L laws base (store_resource L log r).0
  store_resource-IsStreaming base log r good t =
      let (e, p, i) = store_fields log r good in
      grow-IsStreaming L laws base log (store_resource L log r).0 (r ∷ [])
        (objects-store_resource L laws log r good) e p (omega (arith, ap length i)) t

  insert-IsStreaming :
      (base : List T) (log : LedgerLog L) (index : ℕ) (object : T)
      → len L laws log ≤ index
      → IsOk (insert L log index object).1
      → IsStreaming L laws base log
      → IsStreaming L laws base (insert L log index object).0
  insert-IsStreaming base log index object far good t =
      let (filled_ok, e) = insert_far L laws log index object far good in
      let log' = filled L laws log index object in
      let (one, p) = place_at_end L laws log' index object (rw e at good) in
      rw (e, p)
        (store_resource-IsStreaming base log' (some object) one (
          pad-keeps L laws (IsStreaming L laws base)
            (λ l one w. store_resource-IsStreaming base l none one w) _ log filled_ok t))

  revert-IsStreaming :
      (base : List T) (log : LedgerLog L)
      → IsOk (revert_version L log).1
      → log.pending_inserts ≤ length log.cache
      → IsSound L laws log
      → IsStreaming L laws base log
      → IsStreaming L laws base (revert_version L log).0
  revert-IsStreaming base log good cached s t =
      let (es, _, _, e, p) = revert_fields L laws log good in
      let front = map load (L.iter log.store) in
      let back : objects L laws (revert_version L log).0 ≡ front =
        (revert_version_lem L laws log good cached s).0 in
      record {
        sent =
            ap (λ xs. map some (base ++ xs)) e
            ∙ t.sent
            ∙ take-append_left log.stream_pos front (laws.pending log.store)
                (omega (arith, t.stored, length-map load (L.iter log.store)))
            ∙ ap₂ take (sym p) (sym back);
        at = ap (λ xs. length (base ++ xs)) e ∙ t.at ∙ sym p;
        stored = omega (
          arith,
          t.stored,
          p,
          ap (λ st. length (L.iter st)) es,
          ap length (laws.iter-revert log.store (revert-IsOk L laws log good)),
        );
      }

  stream_start :
      (xs : List (Result E (Option T)))
      → or_else (position is_unavailable xs) (length xs) ≡ length (some_prefix (map load xs))
  unfolding position is_unavailable or_else
  stream_start [] = refl
  stream_start (ok (some x) ∷ xs) = ground (arith, stream_start xs)
  stream_start (ok none ∷ xs) = refl
  stream_start (err e ∷ xs) = refl

  opened-IsStreaming :
      (s : L.Store) (cache_size : ℕ)
      → laws.pending s ≡ []
      → IsStreaming L laws (some_prefix (map load (L.iter s))) (opened L s cache_size)
  unfolding opened
  opened-IsStreaming s cache_size none_pending =
      let front = map load (L.iter s) in
      let start = stream_start (L.iter s) in
      record {
        sent =
            ap (map some) (append-nil (some_prefix front))
            ∙ sym (take-some_prefix front)
            ∙ ap₂ take (sym start) (sym (rw none_pending (append-nil front)));
        at = ap length (append-nil (some_prefix front)) ∙ sym start;
        stored = omega (arith, start, length-some_prefix front, length-map load (L.iter s));
      }

  -- The operations, where they succeed: objects come at the end of the log or behind it, and a revert
  -- comes before more objects are pending than the cache holds.
  pub data Step (log : LedgerLog L) : LedgerLog L → Type 0 where
    store : (r : Option T) → IsOk (store_resource L log r).1 → Step log (store_resource L log r).0
    append :
        (index : ℕ) (object : T)
        → len L laws log ≤ index
        → IsOk (insert L log index object).1
        → Step log (insert L log index object).0
    commit : IsOk (commit_version L log).1 → IsSmall L laws log → Step log (commit_version L log).0
    revert :
        IsOk (revert_version L log).1
        → log.pending_inserts ≤ length log.cache
        → Step log (revert_version L log).0

  pub data Reach (log : LedgerLog L) : LedgerLog L → Type 0 where
    here : Reach log log
    next : {mid log' : LedgerLog L} → Reach log mid → Step mid log' → Reach log log'

  abbrev pub IsHealthy : List T → LedgerLog L → Type 0
  IsHealthy base log = IsSound L laws log × IsStreaming L laws base log

  Step-IsHealthy :
      (base : List T) {log log' : LedgerLog L}
      → Step log log'
      → IsHealthy base log
      → IsHealthy base log'
  Step-IsHealthy base {log} (store r good) (s, t) =
      (store_resource-IsSound L laws log r good s, store_resource-IsStreaming base log r good t)
  Step-IsHealthy base {log} (append index object far good) (s, t) = (
    (insert_at_end L laws log index object far good s).1,
    insert-IsStreaming base log index object far good t,
  )
  Step-IsHealthy base {log} (commit good small) (s, t) = (
    commit_version-IsSound L laws log good s,
    (commit_version-IsStreaming L laws base log good s small t).0,
  )
  Step-IsHealthy base {log} (revert good cached) (s, t) =
      ((revert_version_lem L laws log good cached s).1, revert-IsStreaming base log good cached s t)

  Reach-keeps :
      (base : List T) {log log' : LedgerLog L}
      → Reach log log'
      → IsHealthy base log
      → IsHealthy base log'
  Reach-keeps base here h = h
  Reach-keeps base (next r st) h = Step-IsHealthy base st (Reach-keeps base r h)

  -- A log opened from a store with nothing pending and with a positive cache size stays well-
  -- formed, with a cache that agrees with storage and a stream that has carried the available
  -- objects in order, through any sequence of successful stores, inserts at or behind the end,
  -- commits of fewer than 2^64 - 1 objects, and reverts with all pending objects still cached.
  pub Reach-IsHealthy :
      (s : L.Store) (cache_size : ℕ) {log log' : LedgerLog L}
      → laws.pending s ≡ []
      → 0 < cache_size
      → open_log L (ok s) cache_size ≡ ok log
      → Reach log log'
      → IsHealthy (some_prefix (map load (L.iter s))) log'
  unfolding open_log
  Reach-IsHealthy s cache_size {log} none_pending pos e r = Reach-keeps _ r (
    (open_log-IsSound L laws s cache_size none_pending pos e).1,
    subst (IsStreaming L laws (some_prefix (map load (L.iter s)))) (cc)
        (opened-IsStreaming s cache_size none_pending),
  )
