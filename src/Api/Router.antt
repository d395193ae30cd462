-- ===== src/Api/Router.antt =====
-- internal/api/router.go: the routes, the bearer check in front of those below /api/v2, and the two
-- middlewares that count and log each request. The search for a route is package chi's: it is a
-- parameter, which says what it found for a method and a path.
pub mod Routes
pub mod Serve
pub mod Guard
pub mod Refinement
pub mod Admission
pub mod Reach
pub mod Refusals
pub mod Counts
pub mod Permissions
pub mod Chain
pub mod Tenancy
pub mod Targets
pub mod Reads
pub mod Service
pub mod Same
pub mod Ticks
pub mod Reports
use headtotails.Prelude.{
  ℕ, Bool, true, false, Option, none, some, List, [], ◌∷◌, ◌++◌, ◌/◌, nat_eq, if◌then◌else◌, ◌&&◌,
}
use headtotails.Text.{Text, codes, ◌==◌}
use headtotails.Text.Decimal.{format}
use headtotails.Time.{Time}
use headtotails.Proto.{Code}
use headtotails.Headscale.{HeadscaleClient}
use headtotails.Api.Http.{Request, JsonDecoder, Response, status_json, write_json, write_error}
use headtotails.Api.LoggingHelpers.{request_route, request_remote_ip}
use headtotails.Api.Handler.{World, HandlerFunc}
use headtotails.Api.Oauth.{Crypto, OauthConfig, oauth_token_handler}
use headtotails.Api.Bearer.{bearer_auth_middleware}
use headtotails.Api.Wif.Validator.{OidcValidator, new_oidc_validator}
use headtotails.Api.Wif.Exchange.{JwtValidator, token_exchange_handler}
use headtotails.Api.Sessions.{Server, note, new_server}
use headtotails.Api.Keys
use headtotails.Api.Devices.{authorize_device}
use headtotails.Api.Users.{get_user}
use headtotails.Api.Policy.{get_policy_handler}
use headtotails.Api.Endpoints.{serve}
use headtotails.Api.Router.Routes.{
  Route, Open, oauth_token, token_exchange, healthz, metrics, Target, simple, device_authorized,
  keys, key_create, key, key_delete, user, policy, not_implemented, open_routes, api_routes,
}

-- `WIFConfig`.
pub record WifConfig : Type 0 where
  pub enabled : Bool
  pub issuer_url : Text
  pub audience : Text
  pub client_id : Text

-- `Router`, but for the client and the token store, which are parameters and state below.
pub record Router : Type 0 where
  pub tailnet_name : Text
  pub headscale_api_key : Text
  pub client_id : Text
  pub client_secret : Text
  pub hmac_secret : Text
  pub wif_validator : Option OidcValidator
  pub wif_client_id : Text

unfoldable pub new_router : Text → Text → Text → Text → Text → WifConfig → Router
new_router tailnet_name headscale_api_key client_id client_secret hmac_secret wif = record {
  tailnet_name = tailnet_name;
  headscale_api_key = headscale_api_key;
  client_id = client_id;
  client_secret = client_secret;
  hmac_secret = hmac_secret;
  wif_validator =
      if wif.enabled
      then some (new_oidc_validator wif.issuer_url wif.audience wif.client_id)
      else none;
  wif_client_id = wif.client_id;
}

-- What chi finds: a registration, no route, or a route for other methods alone; at the root or in
-- the router that is mounted at /api/v2. `route_pattern` is that of `chi.RouteContext`.
pub data Search : Type 0 where
  matched no_route wrong_method : Search

pub record Found : Type 0 where
  pub below_api : Bool
  pub result : Search
  pub pattern : Text
  pub route_pattern : Text
  pub params : List (Text × Text)

-- A sample of headtotails_requests_total.
pub record Sample : Type 0 where
  pub method : Text
  pub path : Text
  pub status : Text

-- An observation of headtotails_request_duration_seconds: its labels, and a duration in nanoseconds.
pub record Observation : Type 0 where
  pub method : Text
  pub path : Text
  pub took : Time

-- The attributes of a "request" record.
pub record Access : Type 0 where
  pub method : Text
  pub route : Text
  pub http_status : ℕ
  pub duration_ms : ℕ
  pub bytes_written : ℕ
  pub remote_ip : Text
  pub user_agent : Text
  pub request_id : Text

-- Package chi: the search, and its own answers; promhttp.Handler, on what was counted so far; and how
-- many bytes encoding/json makes of a response.
pub record Library : Type 0 where
  pub find : Text → Text → Found
  pub not_found : Response
  pub method_not_allowed : Response
  pub exposition : List Sample → List Observation → List Code → Response
  pub bytes_written : Response → ℕ
  pub split_host : Text → Option Text

-- A request as it comes in: before chi has set the route and its parameters. `observed` and `logged`
-- are the durations that the two middlewares measure.
pub record Incoming : Type 0 where
  pub request : Request
  pub path : Text
  pub remote_addr : Text
  pub user_agent : Text
  pub observed : Time
  pub logged : Time

-- The state behind the router: what the handlers act on, the token store with the validator, and
-- what was counted and logged, oldest first.
pub record App (S V : Type 0) : Type 0 where
  pub world : World S
  pub server : Server V
  pub samples : List Sample
  pub observations : List Observation
  pub accesses : List Access

-- The registration of a method and a pattern.
abbrev serves : {T : Type 0} → Route T → Text → Text → Bool
serves route method pattern =
    route.pattern == pattern && elim route.method [ none ↦ true | some m ↦ m == method ]

unfoldable pub find_route : {T : Type 0} → Text → Text → List (Route T) → Option T
find_route method pattern [] = none
find_route method pattern (route ∷ routes) =
    if serves route method pattern then some route.target else find_route method pattern routes

-- `notImplementedReason`.
unfoldable pub not_implemented_reason : {S : Type 0} → Text → HandlerFunc S
not_implemented_reason reason r w = (write_error 501 reason, w)

abbrev pub unsupported : Text
unsupported =
    codes
      "endpoint not supported by headtotails; see https://github.com/alam0rt/headtotails for API coverage"

unfoldable pub healthz_handler : Response
healthz_handler = write_json 200 (status_json (codes "ok"))

-- `routePattern`, or the path where there is none.
abbrev pub metric_path : Incoming → Request → Text
metric_path q r = if r.route == [] then q.path else r.route

-- `prometheusMiddleware` and `slogMiddleware`, after the handler has answered.
module _ {S V : Type 0} where
  unfoldable pub prometheus_middleware : Incoming → Request → Response → App S V → App S V
  prometheus_middleware q r x app = record app {
    samples =
        app.samples
        ++ record { method = r.method; path = metric_path q r; status = format x.status } ∷ [];
    observations =
        app.observations
        ++ record { method = r.method; path = metric_path q r; took = q.observed } ∷ [];
  }

  unfoldable pub slog_middleware : Library → Incoming → Request → Response → App S V → App S V
  unfolding request_route request_remote_ip
  slog_middleware lib q r x app = record app {
    accesses =
        app.accesses
        ++ record {
          method = r.method;
          route = request_route r;
          http_status = if nat_eq x.status 0 then 200 else x.status;
          duration_ms = q.logged / 1000000;
          bytes_written = lib.bytes_written x;
          remote_ip = request_remote_ip lib.split_host q.remote_addr;
          user_agent = q.user_agent;
          request_id = r.request_id;
        }
          ∷ [];
  }
