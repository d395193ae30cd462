-- ===== src/Api/Errors.antt =====
-- internal/api/errors.go: errors of headscale as responses.
pub mod Status
use headtotails.Prelude.{ℕ, Option, none, some, ◌++◌, [], ◌∷◌, ltb, if◌then◌else◌}
use headtotails.Text.{Text}
use headtotails.Proto.{
  Code, not_found, permission_denied, unauthenticated, already_exists, invalid_argument, GrpcError,
  Outcome, ok, err,
}
use headtotails.Headscale.{Rpc, Reply, HeadscaleClient}
use headtotails.Api.Http.{Request, Response, write_error}
use headtotails.Api.LoggingHelpers.{request_route}
use headtotails.Api.Handler.{
  Level, warn, error, LogEntry, World, Handler, HandlerFunc, pure, respond, call, ◌>>=◌,
}

unfoldable pub grpc_status_to_http : Code → ℕ
grpc_status_to_http not_found = 404
grpc_status_to_http permission_denied = 403
grpc_status_to_http unauthenticated = 401
grpc_status_to_http already_exists = 409
grpc_status_to_http invalid_argument = 400
grpc_status_to_http _ = 500

-- The records of a failed call; the response is that of `write_grpc_error`.
unfoldable pub observe_grpc_error : {S : Type 0} → Request → GrpcError → World S → World S
unfolding grpc_status_to_http request_route
observe_grpc_error r e w = record w {
  grpc_errors = w.grpc_errors ++ e.code ∷ [];
  log =
      w.log
      ++ record {
        level = if ltb (grpc_status_to_http e.code) 500 then warn else error;
        method = r.method;
        route = request_route r;
        http_status = grpc_status_to_http e.code;
        grpc_code = e.code;
        request_id = r.request_id;
        message = e.text;
      }
        ∷ [];
}

unfoldable pub write_grpc_error : {S A : Type 0} → Request → GrpcError → Handler S A
unfolding observe_grpc_error
write_grpc_error r e w =
    respond (write_error (grpc_status_to_http e.code) e.text) (observe_grpc_error r e w)

-- `if err != nil { writeGRPCError(w, r, err); return }`.
abbrev pub or_grpc_error : {S A : Type 0} → Request → Outcome A → Handler S A
or_grpc_error r (ok a) = pure a
or_grpc_error r (err e) = write_grpc_error r e

abbrev pub call_or_error :
    {S : Type 0} → HeadscaleClient S → Request → (q : Rpc) → Handler S (Reply q)
call_or_error hs r q = do result ← call hs q; or_grpc_error r result

-- `if err != nil { writeError(w, http.StatusBadRequest, msg); return }`.
abbrev pub or_bad_request : {S A : Type 0} → Text → Option A → Handler S A
or_bad_request msg (some a) = pure a
or_bad_request msg none = respond (write_error 400 msg)
