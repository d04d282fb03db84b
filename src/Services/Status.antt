-- ===== src/Services/Status.antt =====
-- google.golang.org/grpc/status as the services build it, and the context of a call.
use based_backend.Prelude.{List, Option, none, some, String}
use based_backend.Types.{Bytes}
use based_backend.World.{M, pure, throw}
use based_backend.Sqlc.Database.{DbError}

pub data Code : Type 0 where
  canceled invalid_argument not_found internal unauthenticated unimplemented : Code

-- The error that a `%v` prints: one of a query, or one of the token check or of a stream, with its
-- text.
pub data Cause : Type 0 where
  query : DbError → Cause
  token : Bytes → Cause
  transport : Bytes → Cause

pub record Status : Type 0 where
  pub code : Code
  pub message : String
  pub cause : Option Cause

-- status.Error(code, message)
abbrev pub error : Code → String → Status
error c m = record { code = c; message = m; cause = none }

-- status.Errorf(code, "message: %v", err)
abbrev pub errorf : Code → String → DbError → Status
errorf c m e = record { code = c; message = m; cause = some (query e) }

-- A context.Context: the string under userIDKey, and the incoming metadata.
pub record Context : Type 0 where
  pub user_id : Option Bytes
  pub metadata : Option (List (Bytes × List Bytes))

-- GetUserIDFromContext of internal/interceptors/auth_interceptor.go.
abbrev pub user_id_or_fail : Option Bytes → M Status Bytes
user_id_or_fail none = throw (error Code.unauthenticated "user ID not found in context")
user_id_or_fail (some id) = pure id

unfoldable pub get_user_id_from_context : Context → M Status Bytes
get_user_id_from_context ctx = user_id_or_fail ctx.user_id
