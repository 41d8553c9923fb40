-- ===== src/AppendLog.antt =====
-- The persistent log of the `atomic_store` crate, which src/data_source/ledger_log.rs builds on.
-- The crate is not part of the repository: its operations are a parameter, and what the service
-- relies on is stated as hypotheses over them.
use hotshot_query_service.Prelude.{◌≡◌, List, [], ◌∷◌, ◌++◌, map, Option, Result, ok, err}

-- `AppendLog<BincodeLoadStore<Option<T>>>` with errors `E`. A method that takes `&mut self`
-- returns the new store beside its result, whether it fails or not. `iter` lists what
-- `AppendLog::iter` yields: each committed object, or the error of loading it.
pub record AppendLog (E T : Type 0) : Type 1 where
  pub Store : Type 0
  pub iter : Store → List (Result E (Option T))
  pub store_resource : Store → Option T → Store × Result E (Unit {0})
  pub commit_version : Store → Store × Result E (Unit {0})
  pub skip_version : Store → Store × Result E (Unit {0})
  pub revert_version : Store → Store × Result E (Unit {0})

abbrev pub IsOk : {E : Type 0} → Result E (Unit {0}) → Type 0
IsOk (ok _) = Unit
IsOk (err _) = ⊥

-- What the crate documents of a call that succeeds. `pending` holds the objects stored since the
-- last version. They are not visible in `iter` until they are committed, and a revert drops them.
-- A committed object can be read back.
pub record AppendLogLaws {E T : Type 0} (L : AppendLog E T) : Type 0 where
  pub pending : L.Store → List (Option T)
  pub iter-store :
      (s : L.Store) (r : Option T)
      → IsOk (L.store_resource s r).1
      → L.iter (L.store_resource s r).0 ≡ L.iter s
  pub pending-store :
      (s : L.Store) (r : Option T)
      → IsOk (L.store_resource s r).1
      → pending (L.store_resource s r).0 ≡ pending s ++ (r ∷ [])
  pub iter-commit :
      (s : L.Store)
      → IsOk (L.commit_version s).1
      → L.iter (L.commit_version s).0 ≡ L.iter s ++ map ok (pending s)
  pub pending-commit :
      (s : L.Store) → IsOk (L.commit_version s).1 → pending (L.commit_version s).0 ≡ []
  pub iter-revert :
      (s : L.Store) → IsOk (L.revert_version s).1 → L.iter (L.revert_version s).0 ≡ L.iter s
  pub pending-revert :
      (s : L.Store) → IsOk (L.revert_version s).1 → pending (L.revert_version s).0 ≡ []
