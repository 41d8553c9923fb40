-- ===== src/Tests/Logs.antt =====
-- The theorems on logs of src/data_source/ledger_log.rs, applied to a log of numbers in memory.
use hotshot_query_service.Prelude.{
  ℕ, ◌<◌, none, some, [], ◌∷◌, ◌++◌, map, length, take, drop, set, get_elem?, replicate, ◌≡◌, refl,
  arith,
}
use hotshot_query_service.AppendLog.{AppendLog, AppendLogLaws}
use hotshot_query_service.Tests.{memory, memory_laws}
use hotshot_query_service.LedgerLog.Iter.{load, nth, count, size_hint}
use hotshot_query_service.LedgerLog.Iter.Remaining.{remaining}
use hotshot_query_service.LedgerLog.Defs.{
  LedgerLog, Subscription, iter, insert, store_resource, commit_version, revert_version, subscribe,
  received, opened, open_log, newly_available, pad, place,
}
use hotshot_query_service.LedgerLog.Inv.{objects}
use hotshot_query_service.LedgerLog.Contents.{IsSound, insert_at_end, store_resource-IsSound}
use hotshot_query_service.LedgerLog.Reads.{
  IsSettled, nth-iter, count-iter, insert_inside-reads, revert_version_lem, open_log-IsSound,
}
use hotshot_query_service.LedgerLog.Broadcast.{IsSmall, subscribe-receives}
use hotshot_query_service.LedgerLog.Reach.{
  IsHealthy, Reach, here, next, append, commit, Reach-IsHealthy,
}

abbrev L : AppendLog ℕ ℕ
L = memory ℕ

abbrev laws : AppendLogLaws L
laws = memory_laws ℕ

-- Storage with two objects and a placeholder between them.
abbrev s : L.Store
s = (some 4 ∷ none ∷ some 6 ∷ [], [])

-- The log opened from it with room for two objects in the cache.
abbrev log : LedgerLog L
log = opened L s 2

abbrev two_pos : 0 < 2
two_pos = omega arith

open_log-IsSound_example :
    (objects L laws log ≡ some 4 ∷ none ∷ some 6 ∷ []) × IsSound L laws log × IsSettled L laws log
unfolding open_log opened
open_log-IsSound_example = open_log-IsSound L laws s 2 refl two_pos refl

log-IsSound : IsSound L laws log
unfolding open_log
log-IsSound = (open_log-IsSound L laws s 2 refl two_pos refl).1

log-IsSettled : IsSettled L laws log
unfolding opened
log-IsSettled = omega arith

log-IsSmall : IsSmall L laws log
unfolding opened
log-IsSmall = omega arith

nth-iter_example : (nth (iter L log) 1).0 ≡ get_elem? (objects L laws log) 1
nth-iter_example = nth-iter L laws log 1 log-IsSound log-IsSettled (omega arith)

count-iter_example : count (iter L log) ≡ length (objects L laws log)
count-iter_example = count-iter L laws log log-IsSound log-IsSettled

-- The third object again: the cache reaches back to the placeholder.
insert_inside-reads_example :
    remaining (iter L (insert L log 1 5).0) ≡ set (remaining (iter L log)) 1 (some 5)
unfolding opened insert pad place
insert_inside-reads_example =
    insert_inside-reads L laws log 1 5 (omega arith) (omega arith) tt log-IsSettled

insert_at_end_example :
    (objects L laws (insert L log 5 9).0
      ≡ objects L laws log ++ (replicate 2 none ++ (some 9 ∷ [])))
    × IsSound L laws (insert L log 5 9).0
unfolding opened insert pad store_resource place
insert_at_end_example = insert_at_end L laws log 5 9 (omega arith) tt log-IsSound

-- One object pending.
abbrev stored : LedgerLog L
stored = (store_resource L log (some 7)).0

stored-IsSound : IsSound L laws stored
unfolding store_resource
stored-IsSound = store_resource-IsSound L laws log (some 7) tt log-IsSound

revert_version_lem_example :
    (objects L laws (revert_version L stored).0 ≡ map load (L.iter stored.store))
    × IsSound L laws (revert_version L stored).0
unfolding revert_version store_resource opened
revert_version_lem_example = revert_version_lem L laws stored tt (omega arith) stored-IsSound

healthy : IsHealthy L laws (4 ∷ []) log
unfolding open_log
healthy = Reach-IsHealthy L laws s 2 refl two_pos refl here

-- Later the log has got an object where one was missing at its end, and has been committed.
abbrev later : LedgerLog L
later = (commit_version L (insert L log 3 8).0).0

reached : Reach L laws log later
unfolding opened insert commit_version pad place store_resource
reached = next (next here (append 3 8 (omega arith) tt)) (commit tt (omega arith))

Reach-IsHealthy_example : IsHealthy L laws (4 ∷ []) later
unfolding open_log
Reach-IsHealthy_example = Reach-IsHealthy L laws s 2 refl two_pos refl reached

subscribe-receives_example :
    (sub : Subscription ℕ) × (subscribe L log 0 ≡ some sub)
    × (map some (received sub later.stream) ≡ drop 0 (take later.stream_pos (objects L laws later)))
unfolding opened insert commit_version pad place store_resource newly_available count size_hint nth
subscribe-receives_example =
    subscribe-receives L laws (4 ∷ []) log 0 later [] log-IsSound log-IsSettled log-IsSmall
      (omega arith) healthy.1 refl Reach-IsHealthy_example.1
