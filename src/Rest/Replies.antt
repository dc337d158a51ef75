-- ===== src/Rest/Replies.antt =====
-- api/src/rest/handlers.rs: the errors of a handler. A reply that is no error is a success.
use tuppira.Base.{ℕ, Text, codes, List, Option, Bool, Result, map_err}
use tuppira.Access.{StatusCode, ObservationAccess, HeaderMap, authenticate}
use tuppira.Store.Schema.{StoreError, StoreResult}

pub data ReplyStatus : Type 0 where
  refused : StatusCode → ReplyStatus
  bad_request not_found internal_server_error : ReplyStatus

pub record ErrorResponse : Type 0 where
  pub status : ReplyStatus
  pub error : Text

abbrev pub Reply : Type 0 → Type 0
Reply A = Result ErrorResponse A

unfoldable pub auth_message : StatusCode → Text
auth_message StatusCode.service_unavailable = codes "observation authentication is not configured"
auth_message StatusCode.unauthorized = codes "observation authentication failed"
auth_message StatusCode.forbidden = codes "observation authentication failed"

unfoldable pub auth_error : StatusCode → ErrorResponse
auth_error status = record { status = refused status; error = auth_message status }

-- server_error, with the error as it is displayed
unfoldable pub server_error : Text → ErrorResponse
server_error message = record { status = internal_server_error; error = message }

unfoldable pub tuppira_error : {A : Type 0} → (StoreError → Text) → StoreResult A → Reply A
tuppira_error display r = map_err (λ e. server_error (display e)) r

unfoldable pub access :
    {Hash : Type 0}
    → (List ℕ → Hash)
    → (Hash → Hash → Bool)
    → HeaderMap
    → Option Text
    → Reply ObservationAccess
access digest digest_eq headers configured =
    map_err auth_error (authenticate digest digest_eq headers configured)
