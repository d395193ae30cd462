-- ===== src/Api/Router/Serve.antt =====
-- `Build`: the handler of a request, from the routes and the middlewares.
use headtotails.Prelude.{ℕ, if◌then◌else◌, Option, none, some, List, [], ◌∷◌}
use headtotails.Time.{Time}
use headtotails.Headscale.{HeadscaleClient}
use headtotails.Api.Http.{Request, JsonDecoder, Response}
use headtotails.Api.Handler.{World, HandlerFunc}
use headtotails.Api.Oauth.{Crypto, OauthConfig, oauth_token_handler}
use headtotails.Api.Bearer.{bearer_auth_middleware}
use headtotails.Api.Wif.Exchange.{JwtValidator, token_exchange_handler}
use headtotails.Api.TokenStore.{TokenStore, purge}
use headtotails.Api.Sessions.{note, new_server}
use headtotails.Api.Keys
use headtotails.Api.Devices.{authorize_device}
use headtotails.Api.Users.{get_user}
use headtotails.Api.Policy.{get_policy_handler}
use headtotails.Api.Endpoints
use headtotails.Api.Router.Routes.{
  Open, oauth_token, token_exchange, healthz, metrics, Target, simple, device_authorized, keys,
  key_create, key, key_delete, user, policy, not_implemented, open_routes, api_routes,
}
use headtotails.Api.Router.{
  Router, Search, matched, no_route, wrong_method, Found, Library, Incoming, App, find_route,
  not_implemented_reason, unsupported, healthz_handler, prometheus_middleware, slog_middleware,
}

-- A server with its router, the client, and the code outside of it.
pub record Setup (S V : Type 0) : Type 0 where
  pub router : Router
  pub hs : HeadscaleClient S
  pub validator : JwtValidator V
  pub crypto : Crypto
  pub decode : JsonDecoder
  pub lib : Library

module _ {S V : Type 0} (setup : Setup S V) where
  abbrev pub oauth_config : OauthConfig
  oauth_config = record {
    client_id = setup.router.client_id;
    client_secret = setup.router.client_secret;
    hmac_secret = setup.router.hmac_secret;
  }

  -- The validator of the router is nil unless it was configured.
  abbrev pub jwt_validator : Option (JwtValidator V)
  jwt_validator = elim setup.router.wif_validator [ none ↦ none | some v ↦ some setup.validator ]

  unfoldable pub serve_target : Time → Target → HandlerFunc S
  unfolding not_implemented_reason
  serve_target now (simple e) = Endpoints.serve setup.hs setup.decode e
  serve_target now device_authorized = authorize_device setup.hs setup.decode
  serve_target now keys = Keys.list_keys setup.hs setup.router.tailnet_name
  serve_target now key_create = Keys.create_key setup.hs setup.router.tailnet_name now setup.decode
  serve_target now key = Keys.get_key setup.hs setup.router.tailnet_name
  serve_target now key_delete = Keys.delete_key setup.hs setup.router.tailnet_name
  serve_target now user = get_user setup.hs
  serve_target now policy = get_policy_handler setup.hs
  serve_target now (not_implemented reason) = not_implemented_reason reason

  -- The router at /api/v2 behind its middleware.
  abbrev pub api_target : Time → Option Target → HandlerFunc S
  api_target now none = not_implemented_reason unsupported
  api_target now (some target) = serve_target now target

  abbrev pub route_api : Time → Found → Search → HandlerFunc S
  route_api now found matched r w =
      api_target now (find_route r.method found.pattern api_routes) r w
  route_api now found no_route r w = not_implemented_reason unsupported r w
  route_api now found wrong_method r w = (setup.lib.method_not_allowed, w)

  unfoldable pub serve_api : Time → Found → Request → App S V → Response × App S V
  serve_api now found r app =
      let (x, w) =
        bearer_auth_middleware app.server.tokens setup.router.headscale_api_key now
          (route_api now found found.result) r app.world in
      (x, record app { world = w })

  -- The handlers outside of it.
  abbrev pub sent_token : Time → App S V → Response × TokenStore → V → Response × App S V
  sent_token now app (x, ts) v = (
    x,
    record app {
      server = record { tokens = ts; validator_state = v; sent = note now x app.server.sent };
    },
  )

  unfoldable pub serve_open : Time → Option (List ℕ) → Open → Request → App S V → Response × App S V
  serve_open now random oauth_token r app =
      sent_token now app
        (oauth_token_handler oauth_config setup.crypto random now r app.server.tokens)
        app.server.validator_state
  serve_open now random token_exchange r app =
      let (x, v) =
        token_exchange_handler setup.router.hmac_secret setup.router.wif_client_id setup.crypto
          jwt_validator random now r app.server.tokens app.server.validator_state in
      sent_token now app x v
  serve_open now random healthz r app = (healthz_handler, app)
  serve_open now random metrics r app =
      (setup.lib.exposition app.samples app.observations app.world.grpc_errors, app)

  abbrev pub open_target :
      Time → Option (List ℕ) → Option Open → Request → App S V → Response × App S V
  open_target now random none r app = (setup.lib.not_found, app)
  open_target now random (some target) r app = serve_open now random target r app

  abbrev pub route_open :
      Time → Option (List ℕ) → Found → Search → Request → App S V → Response × App S V
  route_open now random found matched r app =
      open_target now random (find_route r.method found.pattern open_routes) r app
  route_open now random found no_route r app = (setup.lib.not_found, app)
  route_open now random found wrong_method r app = (setup.lib.method_not_allowed, app)

  -- The request as the handlers see it.
  abbrev pub routed : Incoming → Found → Request
  routed q found = record q.request { route = found.route_pattern; params = found.params }

  unfoldable pub dispatch : Time → Option (List ℕ) → Found → Request → App S V → Response × App S V
  unfolding serve_api serve_open
  dispatch now random found r app =
      if found.below_api
      then serve_api now found r app
      else route_open now random found found.result r app

  unfoldable pub build : Time → Option (List ℕ) → Incoming → App S V → Response × App S V
  unfolding dispatch
  build now random q app =
      let found = setup.lib.find q.request.method q.path in
      let r = routed q found in
      let (x, app') = dispatch now random found r app in
      (x, prometheus_middleware q r x (slog_middleware setup.lib q r x app'))

-- A run of the process: requests, each with the random bytes that it reads, and the purges.
pub data Arrival : Type 0 where
  request : Incoming → Option (List ℕ) → Arrival
  tick : Arrival

pub record Moment : Type 0 where
  pub time : Time
  pub arrival : Arrival

module _ {S V : Type 0} (setup : Setup S V) where
  unfoldable pub advance : Moment → App S V → App S V
  unfolding build
  advance m app = elim m.arrival [
    | request q random ↦ (build setup m.time random q app).1
    | tick ↦ record app { server = record app.server { tokens = purge m.time app.server.tokens } }
  ]

  unfoldable pub run_app : List Moment → App S V → App S V
  unfolding advance
  run_app [] app = app
  run_app (m ∷ ms) app = run_app ms (advance m app)

unfoldable pub new_app : {S V : Type 0} → World S → V → App S V
new_app w v = record {
  world = w;
  server = new_server v;
  samples = [];
  observations = [];
  accesses = [];
}
