-- ===== src/Api/Router/Reports.antt =====
-- What `writeGRPCError` of internal/api/errors.go counts and logs, over all routes, beside the
-- failures of the calls of headscale.
use headtotails.Prelude.{ℕ, Option, List}
use headtotails.Time.{Time}
use headtotails.Headscale.{HeadscaleClient}
use headtotails.Api.Router.{App, Incoming}
use headtotails.Api.Router.Serve.{Setup, routed, build}
use headtotails.Api.Router.Targets.{any_target}
use headtotails.Api.Router.Chain.{build-Relates}
use headtotails.Api.Router.Admission.{found_by}
use headtotails.Api.Calls.Failures.{FailedCall, recording, Reports, Reports-Composes}
use headtotails.Api.Calls.Failures.Recording.{recording-Allows}

-- A request to the server, whose client writes down which calls fail, adds to the counter
-- headtotails_grpc_errors_total the codes of the calls that failed for it, each once, and to the log
-- one record of each, with its code and message, the HTTP status of the code and the level of the
-- status: a warning below 500, an error from there on. Left out is only a policy that is not found
-- or of which the error is unknown. Calls that headscale answers are neither counted nor logged.
pub build-Reports :
    {S V : Type 0} (hs : HeadscaleClient S) (setup : Setup (S × List FailedCall) V) (now : Time)
    (random : Option (List ℕ)) (q : Incoming) (app : App (S × List FailedCall) V)
    → Reports app.world (build (record setup { hs = recording hs }) now random q app).1.world
build-Reports hs setup now random q app =
    let own = record setup { hs = recording hs } in
    build-Relates own Reports Reports-Composes.same now random q app (λ target found w.
      any_target own now (routed own q (found_by own q)) (recording-Allows hs) w (λ p. tt) target)
