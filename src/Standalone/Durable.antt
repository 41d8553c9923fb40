-- ===== src/Standalone/Durable.antt =====
-- `run_standalone_service` of src/lib.rs on the data source of src/data_source/sql.rs.
use Prim.Native.String.{String}
use hotshot_query_service.NodeTypes.{NodeTypes}
use hotshot_query_service.Api.Routes
use hotshot_query_service.ApiFiles.Router.{Router}
use hotshot_query_service.Status.Routes as StatusRoutes
use hotshot_query_service.Sql.Client.{Client}
use hotshot_query_service.Sql.Tables.{Tables}
