-- ===== src/Standalone.antt =====
-- `run_standalone_service` of src/lib.rs: the APIs are defined and registered with the web server, then the
-- events of consensus are handled. What the spawned server does with requests is not part of it. Durable is about a service
-- on a database.
pub mod Durable
use Prim.Native.String.{String}
use hotshot_query_service.Prelude.{
  ℕ, List, Result, ok, err, ◌>>=◌, map_err, Fault, error, panic, map_fault, ◌≡◌, refl, Result-cases,
  inl, inr,
}
use hotshot_query_service.NodeTypes.{NodeTypes}
use hotshot_query_service.AppendLog.{IsOk}
use hotshot_query_service.Api.{AvailabilityDataSource}
use hotshot_query_service.Api.Routes
use hotshot_query_service.ApiFiles.{Framework}
use hotshot_query_service.ApiFiles.Router.{Router}
use hotshot_query_service.Resolvable.{ServiceError, service_internal}
use hotshot_query_service.Status.Routes as StatusRoutes
use hotshot_query_service.Update.{Event}
use hotshot_query_service.Update.Service.{VersionedSource, serve}

-- `Options`
pub record Options {L : Type 0} (F : Framework L) : Type 0 where
  pub availability : Routes.Options F
  pub status : StatusRoutes.Options F
  pub port : ℕ

-- `App` of tide_disco, over the state that the data source is shared in.
pub record WebServer {L : Type 0} (F : Framework L) : Type 1 where
  pub App : Type 0
  pub AppError : Type 0
  pub with_state : App
  pub register_module : App → String → F.Api → Result AppError App
  pub app_text : AppError → String
  pub api_text : F.ApiError → String

map_fault-IsOk :
    {D E F : Type 0} (f : E → F) (s : D × Result E (Unit {0})) → IsOk (map_fault f s).1 → IsOk s.1
map_fault-IsOk f (d, ok u) good = tt
map_fault-IsOk f (d, err e) good = good

module _ (N : NodeTypes) {D E R L : Type 0} (queries : AvailabilityDataSource N D)
    (statuses : StatusRoutes.StatusDataSource D) (versions : VersionedSource N D E)
    (error_text : E → String) {F : Framework L} (W : WebServer F)
    (router : Router F (Routes.Handler N D R))
    (status_router : Router F (D → StatusRoutes.Response R))
    (availability_toml status_toml : String) where
  -- Up to the registration of the two APIs.
  unfoldable pub set_up : Options F → Result (ServiceError N R) W.App
  unfolding Routes.define_api StatusRoutes.define_api service_internal
  set_up options = do
    availability_api ←
        map_err (λ e. service_internal (W.api_text e))
          (Routes.define_api N R queries router availability_toml options.availability)
    status_api ←
        map_err (λ e. service_internal (W.api_text e))
          (StatusRoutes.define_api R statuses status_router status_toml options.status)
    app ←
        map_err (λ e. service_internal (W.app_text e))
          (W.register_module W.with_state "availability" availability_api)
    map_err (λ e. service_internal (W.app_text e)) (W.register_module app "status" status_api)

  abbrev internal_fault : Fault E → Fault (ServiceError N R)
  internal_fault (error e) = error (service_internal (error_text e))
  internal_fault panic = panic

  unfoldable pub run_standalone_service :
      Options F → List (Event N) → D → D × Result (Fault (ServiceError N R)) (Unit {0})
  unfolding set_up serve service_internal
  run_standalone_service options events d = elim (set_up options) [
    | err e ↦ (d, err (error e))
    | ok app ↦ map_fault internal_fault (serve N versions events d)
  ]

  -- No event is handled unless both APIs could be defined and registered.
  pub run-set_up :
      (options : Options F) (events : List (Event N)) (d : D) (e : ServiceError N R)
      → set_up options ≡ err e
      → run_standalone_service options events d ≡ (d, err (error e))
  unfolding run_standalone_service
  run-set_up options events d e failed = rw (failed, run_standalone_service) refl

  -- A service that ends without an error has been set up, and has handled its events.
  pub run-serve :
      (options : Options F) (events : List (Event N)) (d : D)
      → IsOk (run_standalone_service options events d).1
      → (app : W.App) × (set_up options ≡ ok app)
        × IsOk (serve N versions events d).1
        × ((run_standalone_service options events d).0 ≡ (serve N versions events d).0)
  unfolding run_standalone_service
  run-serve options events d good = elim (Result-cases (set_up options)) [
    | inl (app, e) ↦ (
      app,
      e,
      map_fault-IsOk internal_fault (serve N versions events d)
          (rw (e, run_standalone_service) at good),
      rw (e, run_standalone_service) refl,
    )
    | inr (f, e) ↦ absurd (rw (e, run_standalone_service) at good)
  ]
