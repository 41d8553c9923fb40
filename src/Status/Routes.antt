-- ===== src/Status/Routes.antt =====
-- `define_api` of src/status.rs: the routes of the status API and their handlers, over the queries of a
-- `StatusDataSource` of src/status/data_source.rs.
use Prim.Native.String.{String}
use hotshot_query_service.Prelude.{ℕ, Option, some, List, [], ◌∷◌, Result, ok, get_elem?, ◌≡◌, refl}
use hotshot_query_service.Errors.{QueryResult}
use hotshot_query_service.Status.{Error, MempoolQueryData, status_response}
use hotshot_query_service.ApiFiles.{Framework, load_base, merge_extensions}
use hotshot_query_service.ApiFiles.Router.{
  get, Route, Router, RouterLaws, define, Distinct, HasRoutes, define-serves,
}
use hotshot_query_service.ApiFiles.Toml.{Value}

-- `Options`
pub record Options {L : Type 0} (F : Framework L) : Type 0 where
  pub api_path : Option F.FilePath
  pub extensions : List (Value L)

-- The queries of a data source with the state `D`. A success rate is a quotient, as its two numbers.
pub record StatusDataSource (D : Type 0) : Type 0 where
  pub block_height : D → QueryResult ℕ
  pub mempool_info : D → QueryResult MempoolQueryData
  pub success_rate : D → QueryResult (ℕ × ℕ)
  pub export_metrics : D → QueryResult String

-- What the handlers return.
pub data Response (R : Type 0) : Type 0 where
  height : Result (Error R) ℕ → Response R
  mempool : Result (Error R) MempoolQueryData → Response R
  rate : Result (Error R) (ℕ × ℕ) → Response R
  metrics : Result (Error R) String → Response R

module _ {D : Type 0} (R : Type 0) (source : StatusDataSource D) where
  abbrev pub status_routes : List (Route (D → Response R))
  status_routes =
      record {
        method = get;
        name = "latest_block_height";
        handler = λ d. height (status_response (source.block_height d));
      }
      ∷ record {
        method = get;
        name = "mempool_info";
        handler = λ d. mempool (status_response (source.mempool_info d));
      }
      ∷ record {
        method = get;
        name = "success_rate";
        handler = λ d. rate (status_response (source.success_rate d));
      }
      ∷ record {
        method = get;
        name = "metrics";
        handler = λ d. metrics (status_response (source.export_metrics d));
      }
      ∷ []

  status_routes-Distinct : Distinct status_routes
  status_routes-Distinct =
      ((refl, (refl, (refl, tt))), ((refl, (refl, tt)), ((refl, tt), (tt, tt))))

  -- `status_toml` is the file src/api/status.toml, which is compiled in.
  unfoldable pub define_api :
      {L : Type 0} {F : Framework L}
      → Router F (D → Response R)
      → String
      → Options F
      → Result F.ApiError F.Api
  unfolding define
  define_api router status_toml options =
      define router options.api_path options.extensions status_toml status_routes

  -- Where the loaded document has the routes of the status API with their methods, the API is
  -- defined and each of them has its handler.
  pub define_api-answers :
      {L : Type 0} {F : Framework L} {router : Router F (D → Response R)} (laws : RouterLaws router)
      (status_toml : String) (options : Options F) (i : ℕ) {base : Value L} {loaded : F.Api}
      {r : Route (D → Response R)}
      → load_base F options.api_path status_toml ≡ ok base
      → F.new_api (merge_extensions F base options.extensions) ≡ ok loaded
      → HasRoutes laws loaded status_routes
      → get_elem? status_routes i ≡ some r
      → (api : F.Api) × (define_api router status_toml options ≡ ok api)
        × (laws.handlers api r.name ≡ some r.handler)
  unfolding define_api
  define_api-answers laws status_toml options i {base} {loaded} {r} e f has at =
      define-serves laws options.api_path options.extensions status_toml status_routes i
        {base = base} {loaded = loaded} {r = r} e f status_routes-Distinct has at
