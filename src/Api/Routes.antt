-- ===== src/Api/Routes.antt =====
-- `define_api` of src/availability.rs: the routes of the availability API and their handlers.
pub mod Questions
pub mod Answers
use Prim.Native.String.{String}
use hotshot_query_service.Prelude.{
  ℕ, Option, some, List, [], ◌∷◌, Result, ok, Fault, get_elem?, ◌≡◌, refl,
}
use hotshot_query_service.NodeTypes.{NodeTypes}
use hotshot_query_service.Availability.QueryData.{
  LeafQueryData, BlockQueryData, TransactionQueryData,
}
use hotshot_query_service.Api.{AvailabilityDataSource, Stream}
use hotshot_query_service.Api.Errors.{Error}
use hotshot_query_service.Api.Handlers.{
  RequestParams, handle_getleaf, handle_streamleaves, handle_streamblockheaders, handle_getblock,
  handle_streamblocks, handle_gettransaction, handle_countproposals, handle_getproposals,
}
use hotshot_query_service.ApiFiles.{Framework, load_base, merge_extensions}
use hotshot_query_service.ApiFiles.Router.{
  get, stream, Route, Router, RouterLaws, define, Distinct, HasRoutes, define-serves,
}
use hotshot_query_service.ApiFiles.Toml.{Value}

-- `Options`
pub record Options {L : Type 0} (F : Framework L) : Type 0 where
  pub api_path : Option F.FilePath
  pub extensions : List (Value L)

-- What the handlers return.
pub data Response (N : NodeTypes) (R : Type 0) : Type 0 where
  leaf : Result (Error N R) (LeafQueryData N) → Response N R
  leaves : Result (Error N R) (Stream (LeafQueryData N)) → Response N R
  headers :
      Result (Error N R) (List (BlockQueryData N) → List (Result (Error N R) N.Header))
      → Response N R
  block : Result (Error N R) (BlockQueryData N) → Response N R
  blocks : Result (Error N R) (Stream (BlockQueryData N)) → Response N R
  transaction : Result (Fault (Error N R)) (TransactionQueryData N) → Response N R
  proposal_count : Result (Error N R) ℕ → Response N R
  proposals : Result (Error N R) (List (LeafQueryData N)) → Response N R

abbrev pub Handler : NodeTypes → Type 0 → Type 0 → Type 0
Handler N D R = D → RequestParams N R → Response N R

module _ (N : NodeTypes) {D : Type 0} (R : Type 0) (source : AvailabilityDataSource N D) where
  abbrev pub availability_routes : List (Route (Handler N D R))
  availability_routes =
      record {
        method = get;
        name = "getleaf";
        handler = λ d req. leaf (handle_getleaf N source d req);
      }
      ∷ record {
        method = stream;
        name = "streamleaves";
        handler = λ d req. leaves (handle_streamleaves N source d req);
      }
      ∷ record {
        method = stream;
        name = "streamblockheaders";
        handler = λ d req. headers (handle_streamblockheaders N source d req);
      }
      ∷ record {
        method = get;
        name = "getblock";
        handler = λ d req. block (handle_getblock N source d req);
      }
      ∷ record {
        method = stream;
        name = "streamblocks";
        handler = λ d req. blocks (handle_streamblocks N source d req);
      }
      ∷ record {
        method = get;
        name = "gettransaction";
        handler = λ d req. transaction (handle_gettransaction N source d req);
      }
      ∷ record {
        method = get;
        name = "countproposals";
        handler = λ d req. proposal_count (handle_countproposals N source d req);
      }
      ∷ record {
        method = get;
        name = "getproposals";
        handler = λ d req. proposals (handle_getproposals N source d req);
      }
      ∷ []

  availability_routes-Distinct : Distinct availability_routes
  availability_routes-Distinct = (
    (refl, (refl, (refl, (refl, (refl, (refl, (refl, tt))))))),
    (
      (refl, (refl, (refl, (refl, (refl, (refl, tt)))))),
      (
        (refl, (refl, (refl, (refl, (refl, tt))))),
        (
          (refl, (refl, (refl, (refl, tt)))),
          ((refl, (refl, (refl, tt))), ((refl, (refl, tt)), ((refl, tt), (tt, tt)))),
        ),
      ),
    ),
  )

  -- `availability_toml` is the file src/api/availability.toml, which is compiled in.
  unfoldable pub define_api :
      {L : Type 0} {F : Framework L}
      → Router F (Handler N D R)
      → String
      → Options F
      → Result F.ApiError F.Api
  unfolding define
  define_api router availability_toml options =
      define router options.api_path options.extensions availability_toml availability_routes

  -- If the base document of the availability API could be loaded, the framework accepts it with
  -- the extensions merged into it, and the routes of the code are routes of the accepted document
  -- with the methods of the code, then the availability API is defined, and each of its eight
  -- routes has the handler of the code.
  pub define_api-serves :
      {L : Type 0} {F : Framework L} {router : Router F (Handler N D R)} (laws : RouterLaws router)
      (availability_toml : String) (options : Options F) (i : ℕ) {base : Value L} {loaded : F.Api}
      {r : Route (Handler N D R)}
      → load_base F options.api_path availability_toml ≡ ok base
      → F.new_api (merge_extensions F base options.extensions) ≡ ok loaded
      → HasRoutes laws loaded availability_routes
      → get_elem? availability_routes i ≡ some r
      → (api : F.Api) × (define_api router availability_toml options ≡ ok api)
        × (laws.handlers api r.name ≡ some r.handler)
  unfolding define_api
  define_api-serves laws availability_toml options i {base} {loaded} {r} e f has at =
      define-serves laws options.api_path options.extensions availability_toml availability_routes i
        {base = base} {loaded = loaded} {r = r} e f availability_routes-Distinct has at
