-- ===== src/Api/Errors/Status.antt =====
-- internal/api/errors.go: the statuses of errors.
use headtotails.Prelude.{ℕ, ◌≢◌, arith}
use headtotails.Text.{Text}
use headtotails.Proto.{Code, not_found}
use headtotails.Api.Http.{write_error}
use headtotails.Api.Errors.{grpc_status_to_http}

-- An error of gRPC is never reported as a success.
pub grpc_status_ne_200 : (c : Code) → grpc_status_to_http c ≢ 200
unfolding grpc_status_to_http
grpc_status_ne_200 not_found = omega arith
grpc_status_ne_200 _ = omega arith

pub write_error-fails :
    {status : ℕ} (msg : Text) → status ≢ 200 → (write_error status msg).status ≢ 200
unfolding write_error
write_error-fails msg h = h
