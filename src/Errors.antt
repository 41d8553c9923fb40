-- ===== src/Errors.antt =====
-- `QueryError` of src/lib.rs and the status of an error.
use hotshot_query_service.Prelude.{ℕ, Result}
use Prim.Native.String.{String}

-- The status codes that the service uses (`tide_disco::StatusCode`); `other` is any code that a
-- custom error carries.
pub data StatusCode : Type 0 where
  bad_request : StatusCode
  not_found : StatusCode
  internal_server_error : StatusCode
  other : ℕ → StatusCode

pub data QueryError : Type 0 where
  not_found_error : QueryError
  missing : QueryError
  failure : String → QueryError

abbrev pub QueryResult : Type 0 → Type 0
QueryResult A = Result QueryError A

unfoldable pub query_status : QueryError → StatusCode
query_status not_found_error = not_found
query_status missing = not_found
query_status (failure message) = internal_server_error
