-- ===== src/LedgerLog/Broadcast.antt =====
-- The broadcast stream of the log of src/data_source/ledger_log.rs follows the objects in order.
use hotshot_query_service.Prelude.{
  ℕ, ◌+◌, ◌-◌, ◌^◌, ◌≤◌, ◌<◌, ◌≡◌, refl, sym, ap, ap₂, ◌∙◌, Option, some, List, ◌++◌, map, length,
  drop, take, get_elem?, length-append, length-map, length-drop, arith, get_elem?-drop, take-add,
  append_assoc, map-append, take-append_left, drop-append_right, drop-take, map-drop, drop-append,
}
use hotshot_query_service.AppendLog.{AppendLog, AppendLogLaws, IsOk}
use hotshot_query_service.LedgerLog.Iter.{load, nth, count}
use hotshot_query_service.LedgerLog.Iter.Remaining.{remaining, remaining-nth, index-nth}
use hotshot_query_service.LedgerLog.Defs.{
  LedgerLog, Subscription, newly_available, commit_version, subscribe, received, iter,
}
use hotshot_query_service.LedgerLog.Inv.{objects, length-objects}
use hotshot_query_service.LedgerLog.Contents.{
  IsSound, committed, commit_fields, objects-committed, committed-IsSound,
}
use hotshot_query_service.LedgerLog.Reads.{
  IsSettled, remaining-iter, count-iter, committed-IsSettled,
}
use hotshot_query_service.LedgerLog.Stream.{
  some_prefix, available-some_prefix, collect_some_lem, take-some_prefix, length-some_prefix,
  some_prefix-maximal, IsAvailable, read_front, read_rest,
}

module _ {E T : Type 0} (L : AppendLog E T) (laws : AppendLogLaws L) where
  -- Objects are so few that an index into them never wraps.
  abbrev pub IsSmall : LedgerLog L → Type 0
  IsSmall log = length (objects L laws log) + 1 < 2 ^ 64

  -- `base` holds the objects that were available when the log was opened. The stream has carried
  -- the objects behind them, in order and without a gap, up to `stream_pos`.
  pub record IsStreaming (base : List T) (log : LedgerLog L) : Type 0 where
    pub sent : map some (base ++ log.stream) ≡ take log.stream_pos (objects L laws log)
    pub at : length (base ++ log.stream) ≡ log.stream_pos
    pub stored : log.stream_pos ≤ length (L.iter log.store)

  -- A commit broadcasts the objects that extend the available prefix.
  pub newly_available_lem :
      (log : LedgerLog L)
      → IsSound L laws log
      → IsSettled L laws log
      → IsSmall log
      → log.stream_pos ≤ length (objects L laws log)
      → newly_available L log ≡ some_prefix (drop log.stream_pos (objects L laws log))
  unfolding newly_available iter
  newly_available_lem log s h small inside =
      let it = iter L log in
      let n = log.stream_pos in
      let all = objects L laws log in
      let d : drop n (remaining it) ≡ drop n all = ap (drop n) (remaining-iter L laws log s h) in
      let (_, fed) = remaining-nth it n (omega arith) (omega arith) in
      available-some_prefix (count it + 1) (nth it n).0 (nth it n).1 (drop n all)
        (read_front it n (drop n all) d (omega arith) (omega arith))
        (read_rest it n (drop n all) d (omega arith) (omega arith)) fed
        (omega (arith, index-nth it n (omega arith), length-drop n all))
        (omega (arith, count-iter L laws log s h, length-drop n all))

  -- What a successful commit of a small well-formed log broadcasts is the objects behind the old
  -- stream position up to the first missing one.
  pub commit_broadcasts :
      (log : LedgerLog L)
      → IsOk (commit_version L log).1
      → IsSound L laws log
      → IsSmall log
      → log.stream_pos ≤ length (objects L laws log)
      → newly_available L (committed L laws log)
        ≡ some_prefix (drop log.stream_pos (objects L laws log))
  commit_broadcasts log good s small inside =
      let e = objects-committed L laws log good in
      newly_available_lem (committed L laws log) (committed-IsSound L laws log good s)
        (committed-IsSettled L laws log good s) (rw e small) (rw e inside)
      ∙ ap (λ xs. some_prefix (drop log.stream_pos xs)) e

  pub inside_objects :
      (base : List T) (log : LedgerLog L)
      → IsStreaming base log
      → log.stream_pos ≤ length (objects L laws log)
  inside_objects base log t = omega (
    arith,
    t.stored,
    length-append (map load (L.iter log.store)) (laws.pending log.store),
    length-map load (L.iter log.store),
  )

  -- A commit carries the stream on to the first missing object.
  pub commit_version-IsStreaming :
      (base : List T) (log : LedgerLog L)
      → IsOk (commit_version L log).1
      → IsSound L laws log
      → IsSmall log
      → IsStreaming base log
      → IsStreaming base (commit_version L log).0
        × (¬ IsAvailable (get_elem? (objects L laws log) (commit_version L log).0.stream_pos))
  commit_version-IsStreaming base log good s small t =
      let all = objects L laws log in
      let p = log.stream_pos in
      let new = some_prefix (drop p all) in
      let e = objects-committed L laws log good in
      let f = commit_fields L laws log good in
      let b = commit_broadcasts log good s small (inside_objects base log t) in
      rw (f, b)
        (
          record {
            sent =
                ap (map some) (sym (append_assoc base log.stream new))
                ∙ map-append some (base ++ log.stream) new
                ∙ ap₂ (λ xs ys. xs ++ ys) t.sent (sym (take-some_prefix (drop p all)))
                ∙ sym (take-add p (length new) all)
                ∙ ap (take (p + length new)) (sym e);
            at = omega (
              arith,
              t.at,
              length-append base log.stream,
              length-append log.stream new,
              length-append base (log.stream ++ new),
            );
            stored =
                let (w, _) = committed-IsSound L laws log good s in
                omega (
                  arith,
                  w.total,
                  length-objects L laws (committed L laws log) w,
                  ap length e,
                  inside_objects base log t,
                  length-some_prefix (drop p all),
                  length-drop p all,
                );
          },
          rw (← get_elem?-drop p all (length new)) (some_prefix-maximal (drop p all)),
        )

  -- A log whose objects only grow, and that broadcasts nothing, keeps the stream in step.
  pub grow-IsStreaming :
      (base : List T) (log log' : LedgerLog L) (more : List (Option T))
      → objects L laws log' ≡ objects L laws log ++ more
      → log'.stream ≡ log.stream
      → log'.stream_pos ≡ log.stream_pos
      → length (L.iter log.store) ≤ length (L.iter log'.store)
      → IsStreaming base log
      → IsStreaming base log'
  grow-IsStreaming base log log' more grown e p h t = record {
    sent =
        ap (λ xs. map some (base ++ xs)) e
        ∙ t.sent
        ∙ sym
            (take-append_left log.stream_pos (objects L laws log) more (inside_objects base log t))
        ∙ ap₂ take (sym p) (sym grown);
    at = ap (λ xs. length (base ++ xs)) e ∙ t.at ∙ sym p;
    stored = omega (arith, t.stored, p);
  }

  module _ (base : List T) (log : LedgerLog L) (from : ℕ) where
    -- What `subscribe` returns while the stream is in step.
    abbrev subscription : Subscription T
    subscription = record {
      prefix = drop from (base ++ log.stream);
      since = length log.stream;
      skip = from - log.stream_pos;
    }

    subscribe-subscription :
        IsSound L laws log
        → IsSettled L laws log
        → IsSmall log
        → from < 2 ^ 64
        → IsStreaming base log
        → subscribe L log from ≡ some subscription
    unfolding subscribe iter
    subscribe-subscription s h small range t =
        let it = iter L log in
        let k = log.stream_pos - from in
        let prefix = drop from (base ++ log.stream) in
        let there : take k (drop from (remaining it)) ≡ map some prefix =
          ap (λ xs. take k (drop from xs)) (remaining-iter L laws log s h)
          ∙ sym (drop-take from log.stream_pos (objects L laws log))
          ∙ ap (drop from) (sym t.sent)
          ∙ sym (map-drop some from (base ++ log.stream)) in
        let inside = inside_objects base log t in
        rw (
          collect_some_lem k from it (drop from (remaining it)) prefix refl there (omega arith)
            (omega arith))

    received-subscription :
        (more : List T)
        → IsStreaming base log
        → received subscription (log.stream ++ more) ≡ drop from ((base ++ log.stream) ++ more)
    unfolding received
    received-subscription more t =
        ap₂ (λ k xs. drop from (base ++ log.stream) ++ drop k xs) (omega (arith, t.at))
          (drop-append_right (length log.stream) 0 log.stream more (omega arith))
        ∙ sym (drop-append from (base ++ log.stream) more)

    -- A subscriber at a position below 2^64 to a small well-formed log in step with its stream is
    -- never refused; when the log has become one that has broadcast more and is again in step, the
    -- subscriber has received exactly the objects of that log from its position up to the stream
    -- position.
    pub subscribe-receives :
        (log' : LedgerLog L) (more : List T)
        → IsSound L laws log
        → IsSettled L laws log
        → IsSmall log
        → from < 2 ^ 64
        → IsStreaming base log
        → log'.stream ≡ log.stream ++ more
        → IsStreaming base log'
        → (sub : Subscription T) × (subscribe L log from ≡ some sub)
          × (map some (received sub log'.stream)
              ≡ drop from (take log'.stream_pos (objects L laws log')))
    subscribe-receives log' more s h small range t later t' = (
      subscription,
      subscribe-subscription s h small range t,
      ap (λ xs. map some (received subscription xs)) later
          ∙ ap (map some) (received-subscription more t)
          ∙ ap (λ xs. map some (drop from xs)) (append_assoc base log.stream more)
          ∙ ap (λ xs. map some (drop from (base ++ xs))) (sym later)
          ∙ map-drop some from (base ++ log'.stream)
          ∙ ap (drop from) t'.sent,
    )
