-- ===== src/LedgerLog/Defs.antt =====
-- `LedgerLog` of src/data_source/ledger_log.rs. A method that takes `&mut self` returns the new log
-- beside its result. The counters stay below the number of stored objects and are plain numbers;
-- an index, which a client chooses, wraps in `Iter`.
use hotshot_query_service.Prelude.{
  ℕ, zero, suc, ◌+◌, ◌-◌, max, Option, none, some, List, [], ◌∷◌, ◌++◌, map, Bool, true, false,
  length, set, drop, pop_front, pop_back, ltb, leb, ◌==◌, if◌then◌else◌, Result, ok, err, Fault,
  error, panic, map_err, map_option, ◌>>=◌,
}
use hotshot_query_service.AppendLog.{AppendLog}
use hotshot_query_service.LedgerLog.Iter.{Iter, load, nth, next, count}

-- `stream` lists the objects sent on the broadcast channel so far.
pub record LedgerLog {E T : Type 0} (L : AppendLog E T) : Type 0 where
  pub cache_start : ℕ
  pub cache_size : ℕ
  pub cache : List (Option T)
  pub store : L.Store
  pub pending_inserts : ℕ
  pub stream : List T
  pub stream_pos : ℕ

-- What `subscribe` returns: the objects that are there, then those sent after the `since`th, less
-- the first `skip`.
pub record Subscription (T : Type 0) : Type 0 where
  pub prefix : List T
  pub since : ℕ
  pub skip : ℕ

-- `Iterator::position`
unfoldable pub position {ℓ} : {A : Type ℓ} → (A → Bool) → List A → Option ℕ
position p [] = none
position p (x ∷ xs) = if p x then some 0 else map_option suc (position p xs)

-- `!matches!(entry, Ok(Some(_)))`
unfoldable pub is_unavailable : {E T : Type 0} → Result E (Option T) → Bool
is_unavailable (ok (some _)) = false
is_unavailable (ok none) = true
is_unavailable (err _) = true

unfoldable pub or_else : Option ℕ → ℕ → ℕ
or_else none d = d
or_else (some n) d = n

unfoldable pub repeat_pop_back {ℓ} : {A : Type ℓ} → ℕ → List A → List A
repeat_pop_back zero xs = xs
repeat_pop_back (suc n) xs = repeat_pop_back n (pop_back xs)

-- The loop of `commit_version`: the objects up to the first missing one, `o` being the one just
-- read. The fuel is the number of objects, and one.
unfoldable pub available : {E T : Type 0} → ℕ → Option (Option T) → Iter E T → List T
available zero o it = []
available (suc fuel) none it = []
available (suc fuel) (some none) it = []
available (suc fuel) (some (some obj)) it = let (o, it') = next it in obj ∷ available fuel o it'

-- `skip(n).take(k).collect::<Option<Vec<_>>>()`
unfoldable pub collect_some : {E T : Type 0} → ℕ → ℕ → Iter E T → Option (List T)
collect_some zero n it = some []
collect_some (suc k) n it =
    let (o, it') = nth it n in
    elim o [
      | none ↦ some []
      | some entry ↦ elim entry [
        | none ↦ none
        | some obj ↦ map_option (λ xs. obj ∷ xs) (collect_some k 0 it')
      ]
    ]

module _ {E T : Type 0} (L : AppendLog E T) where
  -- The argument is what `AppendLog::create` returns.
  unfoldable pub create : Result E L.Store → ℕ → Result E (LedgerLog L)
  create created cache_size = do
    store ← created
    ok (record {
      cache_start = 0;
      cache_size = cache_size;
      cache = [];
      store = store;
      pending_inserts = 0;
      stream = [];
      stream_pos = 0;
    })

  -- The log that `open` builds over a loaded store.
  unfoldable pub opened : L.Store → ℕ → LedgerLog L
  unfolding position is_unavailable or_else
  opened store cache_size =
      let len = length (L.iter store) in
      let start : ℕ = if ltb cache_size len then len - cache_size else 0 in
      record {
        cache_start = start;
        cache_size = cache_size;
        cache = map load (drop start (L.iter store));
        store = store;
        pending_inserts = 0;
        stream = [];
        stream_pos = or_else (position is_unavailable (L.iter store)) len;
      }

  -- `open`; the argument is what `AppendLog::load` returns.
  unfoldable pub open_log : Result E L.Store → ℕ → Result E (LedgerLog L)
  unfolding opened
  open_log loaded cache_size = do store ← loaded; ok (opened store cache_size)

  unfoldable pub iter : LedgerLog L → Iter E T
  iter log = record {
    index = 0;
    cache_start = log.cache_start;
    cache = log.cache;
    store = L.iter log.store;
  }

  -- The part of `store_resource` behind the write to storage.
  unfoldable pub push_cache : LedgerLog L → Option T → LedgerLog L
  push_cache log r =
      let full = leb log.cache_size (length log.cache) in
      record log {
        pending_inserts = log.pending_inserts + 1;
        cache_start = if full then log.cache_start + 1 else log.cache_start;
        cache = (if full then pop_front log.cache else log.cache) ++ (r ∷ []);
      }

  unfoldable pub store_resource : LedgerLog L → Option T → LedgerLog L × Result E (Unit {0})
  unfolding push_cache
  store_resource log r =
      let (s, res) = L.store_resource log.store r in
      elim res [
        | ok _ ↦ (push_cache (record log { store = s }) r, ok tt)
        | err e ↦ (record log { store = s }, err e)
      ]

  -- The loop of `insert` that stores `n` placeholders.
  unfoldable pub pad : ℕ → LedgerLog L → LedgerLog L × Result E (Unit {0})
  pad zero log = (log, ok tt)
  pad (suc n) log =
      let (log', res) = store_resource log none in
      elim res [ ok _ ↦ pad n log' | err e ↦ (log', err e) ]

  unfoldable pub place : LedgerLog L → ℕ → ℕ → T → LedgerLog L × Result (Fault E) (Unit {0})
  place log target_len index object =
      if ltb target_len index
      then (log, err panic)
      else if target_len == index
      then (let (log', res) = store_resource log (some object) in (log', map_err error res))
      else if leb log.cache_start index
      then if ltb (index - log.cache_start) (length log.cache)
        then (record log { cache = set log.cache (index - log.cache_start) (some object) }, ok tt)
        else (log, err panic)
      else (log, ok tt)

  unfoldable pub insert : LedgerLog L → ℕ → T → LedgerLog L × Result (Fault E) (Unit {0})
  insert log index object =
      let len = length (L.iter log.store) + log.pending_inserts in
      let target_len = max index len in
      let (log', padded) = pad (target_len - len) log in
      elim padded [ ok _ ↦ place log' target_len index object | err e ↦ (log', err (error e)) ]

  -- The objects that `commit_version` broadcasts.
  unfoldable pub newly_available : LedgerLog L → List T
  unfolding available iter
  newly_available log =
      let (o, it) = nth (iter log) log.stream_pos in available (count (iter log) + 1) o it

  unfoldable pub commit_version : LedgerLog L → LedgerLog L × Result E (Unit {0})
  commit_version log =
      let (s, res) = L.commit_version log.store in
      let log' = record log { store = s; pending_inserts = 0 } in
      let sent = newly_available log' in
      elim res [
        | err e ↦ (record log { store = s }, err e)
        | ok _ ↦ (
          record log' { stream = log'.stream ++ sent; stream_pos = log'.stream_pos + length sent },
          ok tt,
        )
      ]

  unfoldable pub skip_version : LedgerLog L → LedgerLog L × Result E (Unit {0})
  skip_version log = let (s, res) = L.skip_version log.store in (record log { store = s }, res)

  unfoldable pub revert_version : LedgerLog L → LedgerLog L × Result E (Unit {0})
  revert_version log =
      let (s, res) = L.revert_version log.store in
      elim res [
        | err e ↦ (record log { store = s }, err e)
        | ok _ ↦ (
          record log {
            store = s;
            cache = repeat_pop_back log.pending_inserts log.cache;
            pending_inserts = 0;
          },
          ok tt,
        )
      ]

  unfoldable pub subscribe : LedgerLog L → ℕ → Option (Subscription T)
  unfolding collect_some iter
  subscribe log from =
      map_option
        (λ prefix. record {
          prefix = prefix;
          since = length log.stream;
          skip = from - log.stream_pos;
        })
        (collect_some (log.stream_pos - from) from (iter log))

-- What a subscriber has received once the channel has carried the objects `sent`.
unfoldable pub received : {T : Type 0} → Subscription T → List T → List T
received sub sent = sub.prefix ++ drop sub.skip (drop sub.since sent)
