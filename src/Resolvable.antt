-- ===== src/Resolvable.antt =====
-- src/resolvable.rs: a reference to an object, which is the object itself or a commitment to it. And
-- `Error` of src/error.rs, which gathers the errors of the two APIs.
use hotshot_query_service.Prelude.{Result, ok, err}
use Prim.Native.String.{String}
use hotshot_query_service.NodeTypes.{NodeTypes}
use hotshot_query_service.Errors.{StatusCode, internal_server_error}
use hotshot_query_service.Api.Errors
use hotshot_query_service.Status

-- `Either<T, Commitment<T>>`
pub data Reference (T C : Type 0) : Type 0 where
  left : T → Reference T C
  right : C → Reference T C

unfoldable pub try_resolve : {T C : Type 0} → Reference T C → Result (Reference T C) T
try_resolve (left t) = ok t
try_resolve (right c) = err (right c)

unfoldable pub commitment : {T C : Type 0} → (T → C) → Reference T C → C
commitment commit (left t) = commit t
commitment commit (right c) = c

pub data ServiceError (N : NodeTypes) (R : Type 0) : Type 0 where
  availability : Errors.Error N R → ServiceError N R
  status : Status.Error R → ServiceError N R
  custom : String → StatusCode → ServiceError N R

unfoldable pub service_internal : {N : NodeTypes} {R : Type 0} → String → ServiceError N R
service_internal message = custom message internal_server_error

unfoldable pub service_status : {N : NodeTypes} {R : Type 0} → ServiceError N R → StatusCode
unfolding Errors.status Status.status
service_status (availability source) = Errors.status source
service_status (status source) = Status.status source
service_status (custom message code) = code
