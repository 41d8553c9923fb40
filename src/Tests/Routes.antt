-- ===== src/Tests/Routes.antt =====
-- The theorem on the answers of the availability API, applied to a framework in memory.
use Prim.Native.String.{String}
use text.Mathlib.Text.{◌==◌}
use hotshot_query_service.Prelude.{
  ℕ, Option, none, some, [], Result, ok, err, if◌then◌else◌, Bool, true, false, ◌≡◌, refl, ap, sym,
  ◌∙◌, ok-injective,
}
use hotshot_query_service.Api.Routes.Answers.{Answers, define_api-Answers}
use hotshot_query_service.Api.Routes.Questions.{transaction_named}
use hotshot_query_service.Api.Transactions.{by_hash}
use hotshot_query_service.Availability.Payload.{transaction}
use hotshot_query_service.LedgerLog.Contents.{IsSound}
use hotshot_query_service.LedgerLog.Defs.{
  opened, insert, pad, store_resource, place, commit_version,
}
use hotshot_query_service.LedgerLog.Reads.{IsSettled, commit_version_lem}
use hotshot_query_service.Tests.Requests.{request, serving, serving-IsServing}
use hotshot_query_service.Tests.Sources.{S, lv, bv, ds, leaves-IsSound}
use hotshot_query_service.Api.Routes.{Handler, Options}
use hotshot_query_service.ApiFiles.{Framework, load_base}
use hotshot_query_service.ApiFiles.Router.{Method, get, stream, Route, Router, RouterLaws}
use hotshot_query_service.ApiFiles.Toml.{table, end}
use hotshot_query_service.FileSystem.Defs.{FileSystemDataSource, empty_source, insert_block, commit}
use hotshot_query_service.Tests.{numbers, memory_storage}

abbrev H : Type 0
H = Handler numbers (FileSystemDataSource numbers memory_storage) ℕ

-- The methods of the routes, and the handlers.
abbrev Registered : Type 0
Registered = (String → Option Method) × (String → Option H)

abbrev methods_of : String → Option Method
methods_of name =
    if name == "streamleaves"
    then some stream
    else if name == "streamblocks"
    then some stream
    else if name == "streamblockheaders"
    then some stream
    else some get

abbrev framework : Framework ℕ
framework = record {
  FilePath = ℕ;
  Bytes = ℕ;
  IoError = String;
  EncodingError = String;
  TomlError = String;
  read = λ path. ok path;
  from_utf8 = λ bytes. ok "text";
  from_str = λ string. ok (table end);
  io_text = λ e. e;
  encoding_text = λ e. e;
  toml_text = λ e. e;
  Api = Registered;
  ApiError = String;
  cannot_read_toml = λ reason. reason;
  new_api = λ doc. ok (methods_of, λ name. none);
}

abbrev same_method : Method → Option Method → Bool
same_method get (some get) = true
same_method stream (some stream) = true
same_method m other = false

abbrev accept : Bool → Option H → Registered → String → H → Result String Registered
accept true none api name h = ok (api.0, λ other. if name == other then some h else api.1 other)
accept true (some other) api name h = err "the route has a handler"
accept false other api name h = err "no such route"

abbrev router : Router framework H
router = record {
  with_version = λ version api. api;
  register = λ m api name h. accept (same_method m (api.0 name)) (api.1 name) api name h;
}

same_method_refl : (m : Method) → same_method m (some m) ≡ true
same_method_refl get = refl
same_method_refl stream = refl

accepted :
    (api : Registered) (r : Route H)
    → api.0 r.name ≡ some r.method
    → api.1 r.name ≡ none
    → router.register r.method api r.name r.handler
      ≡ ok (api.0, λ other. if r.name == other then some r.handler else api.1 other)
accepted api r method free =
    ap (λ (o : Option Method). accept (same_method r.method o) (api.1 r.name) api r.name r.handler)
      method
    ∙ ap (λ (b : Bool). accept b (api.1 r.name) api r.name r.handler) (same_method_refl r.method)
    ∙ ap (λ (o : Option H). accept true o api r.name r.handler) free

abbrev router_laws : RouterLaws router
router_laws = record {
  methods = λ api. api.0;
  handlers = λ api. api.1;
  methods-with_version = λ version api. refl;
  handlers-with_version = λ version api. refl;
  none_yet = λ doc e name. ap (λ (api : Registered). api.1 name) (sym (ok-injective e));
  registered = λ api r method free. (
    (api.0, λ other. if r.name == other then some r.handler else api.1 other),
    accepted api r method free,
    refl,
    λ name. refl,
  );
}

abbrev options : Options framework
options = record { api_path = none; extensions = [] }

leaves_serving :
    IsSound S.leaves lv serving.leaf_storage × IsSettled S.leaves lv serving.leaf_storage
unfolding empty_source opened insert_block insert pad store_resource place commit commit_version
    transaction
leaves_serving =
    let (_, sound, settled) = commit_version_lem S.leaves lv ds.leaf_storage tt leaves-IsSound in
    (sound, settled)

define_api-Answers_example :
    Answers numbers S lv bv serving request router_laws "text" options
      (transaction_named (by_hash 102))
unfolding load_base
define_api-Answers_example =
    define_api-Answers numbers S lv bv serving request router_laws "text" options
      (transaction_named (by_hash 102)) refl refl
      (refl, (refl, (refl, (refl, (refl, (refl, (refl, (refl, tt)))))))) serving-IsServing
      leaves_serving.0 leaves_serving.1 refl
