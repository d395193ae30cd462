-- ===== src/Api/Policy.antt =====
-- internal/api/policy.go: the access policy, a text that is passed through.
pub mod Laws
use headtotails.Prelude.{
  ℕ, Bool, true, false, Option, none, some, List, [], ◌∷◌, ◌++◌, if◌then◌else◌,
}
use headtotails.Text.{Text, codes}
use headtotails.Text.Affix.{contains}
use headtotails.Proto.{Code, not_found, unknown, GrpcError, Outcome, ok, err}
use headtotails.Headscale.{get_policy, set_policy, HeadscaleClient}
use headtotails.Api.Http.{Request, Response, policy_json, raw, write_json, write_error}
use headtotails.Api.Handler.{World, Handler, HandlerFunc, pure, respond, call, run, ◌>>=◌, ◌>>◌}
use headtotails.Api.Errors.{write_grpc_error, call_or_error, or_bad_request}

-- No policy has been set yet.
abbrev pub is_unset : Code → Bool
is_unset not_found = true
is_unset unknown = true
is_unset _ = false

abbrev pub or_empty_policy : {S : Type 0} → Request → Outcome Text → Handler S Text
or_empty_policy r (ok policy) = pure policy
or_empty_policy r (err e) = if is_unset e.code then pure (codes "{}") else write_grpc_error r e

-- The representation that the header "Accept" asks for.
unfoldable pub show_policy : Request → Text → Response
show_policy r policy =
    if contains r.accept (codes "application/hujson")
    then record {
      status = 200;
      content_type = some (codes "application/hujson");
      body = raw policy;
    }
    else write_json 200 (policy_json policy)

module _ {S : Type 0} (hs : HeadscaleClient S) where
  unfoldable pub get_policy_handler : HandlerFunc S
  unfolding show_policy
  get_policy_handler r =
      run do
        result ← call hs get_policy
        policy ← or_empty_policy r result
        pure (show_policy r policy)

  unfoldable pub set_policy_handler : HandlerFunc S
  set_policy_handler r = run do
    policy ← or_bad_request (codes "failed to read request body") r.body
    call_or_error hs r (set_policy policy)
    pure (write_json 200 (policy_json policy))
