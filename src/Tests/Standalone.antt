-- ===== src/Tests/Standalone.antt =====
-- The theorem on a whole service, applied to a database in memory and to a framework that accepts
-- every document and every handler.
use Prim.Native.String.{String}
use hotshot_query_service.Prelude.{ℕ, suc, none, [], ok, err, ◌⊎◌, suc}
use hotshot_query_service.Api.{AvailabilityDataSource}
use hotshot_query_service.Api.Routes
use hotshot_query_service.ApiFiles.{Framework}
use hotshot_query_service.ApiFiles.Router.{Router}
use hotshot_query_service.ApiFiles.Toml.{Value, table, end}
use hotshot_query_service.Errors.{QueryError, missing}
use hotshot_query_service.Sql.Defs.{SqlDataSource}
use hotshot_query_service.Sql.Service.{sql_service}
use hotshot_query_service.Update.Service.{serve}
use hotshot_query_service.Standalone.{Options, WebServer}
use hotshot_query_service.Status.Routes as StatusRoutes
use hotshot_query_service.Tests.{numbers}
use hotshot_query_service.Tests.Memory.{memory_client}
use hotshot_query_service.Tests.Sql.{plain, events, opened_source}

abbrev D : Type 0
D = SqlDataSource numbers plain memory_client

abbrev framework : Framework ℕ
framework = record {
  FilePath = ℕ;
  Bytes = ℕ;
  IoError = String;
  EncodingError = String;
  TomlError = String;
  read = λ path. ok path;
  from_utf8 = λ bytes. ok "text";
  from_str = λ string. ok (table end);
  io_text = λ e. e;
  encoding_text = λ e. e;
  toml_text = λ e. e;
  Api = Value ℕ;
  ApiError = String;
  cannot_read_toml = λ reason. reason;
  new_api = λ doc. ok doc;
}

abbrev accepting : (H : Type 0) → Router framework H
accepting H = record { with_version = λ version api. api; register = λ m api name h. ok api }

-- The application is the number of its modules.
abbrev web : WebServer framework
web = record {
  App = ℕ;
  AppError = String;
  with_state = 0;
  register_module = λ app name api. ok (suc app);
  app_text = λ e. e;
  api_text = λ e. e;
}

abbrev queries : AvailabilityDataSource numbers D
queries = record {
  source_leaf = λ d id. err missing;
  source_block = λ d id. err missing;
  leaf_range = λ d start end. ok [];
  block_range = λ d start end. ok [];
  block_with_transaction = λ d h. err missing;
  proposals = λ d id limit. err missing;
  proposal_count = λ d id. err missing;
  leaf_stream = λ d height. err missing;
  block_stream = λ d height. err missing;
}

abbrev statuses : StatusRoutes.StatusDataSource D
statuses = record {
  block_height = λ d. err missing;
  mempool_info = λ d. err missing;
  success_rate = λ d. err missing;
  export_metrics = λ d. err missing;
}

abbrev options : Options framework
options = record {
  availability = record { api_path = none; extensions = [] };
  status = record { api_path = none; extensions = [] };
  port = 8080;
}

abbrev texts : QueryError ⊎ String → String
texts e = "error"

abbrev after : D
after = (serve numbers (sql_service numbers plain memory_client) events opened_source).0
