-- ===== src/Tests/Routing.antt =====
-- The process on the small tailnet.
use headtotails.Prelude.{◌≡◌, refl, ap, ◌≢◌, inl, true, none, some, List, [], ◌∷◌, arith, Among}
use headtotails.Text.{Text, codes, ◌==◌}
use headtotails.Text.Split.{split_n}
use headtotails.Text.Fold.{equal_fold}
use headtotails.Text.Space.{trim_space}
use headtotails.Headscale.Client.{grpc_client}
use headtotails.Api.Devices.{list_devices}
use headtotails.Api.Http.{Response, write_error}
use headtotails.Api.Handler.{World, call}
use headtotails.Headscale.{list_nodes}
use headtotails.Api.Bearer.{request_token, bearer_auth_middleware, extract_bearer_token}
use headtotails.Api.Endpoints.{devices}
use headtotails.Api.Wif.Exchange.{invalid}
use headtotails.Api.Sessions.{new_server}
use headtotails.Api.Router.Routes.{Route, Target, simple, api_routes}
use headtotails.Api.Router.{
  Router, matched, no_route, unsupported, Found, Incoming, App, find_route, prometheus_middleware,
  slog_middleware,
}
use headtotails.Api.Router.Serve.{
  Setup, serve_target, dispatch, build, request, tick, Moment, run_app, new_app, routed,
}
use headtotails.Api.Router.Guard.{IsAuthorized}
use headtotails.Api.Router.Refinement.{events, session, run_app-refines}
use headtotails.Api.Router.Admission.{IsAdmitted, found_by, build-IsAdmitted}
use headtotails.Api.Router.Reach.{Takes}
use headtotails.Api.Router.Service.{seen, ServedBy, build-Served}
use headtotails.Api.Router.Refusals.{unregistered, dispatch-unsupported}
use headtotails.Api.Router.Ticks.{build-without_ticks}
use headtotails.Api.Sessions.Seen.{Seen}
use mathlib.Core.Quot
use headtotails.Api.Calls.{Added}
use headtotails.Api.Calls.Reads.{IsRead}
use headtotails.Api.Router.Reads.{build-IsRead}
use headtotails.Api.Calls.Failures.{FailedCall, recording, Reports}
use headtotails.Api.Router.Reports.{build-Reports}
use headtotails.Tests

abbrev key : Text
key = codes "abc"

abbrev router : Router
router = record {
  tailnet_name = codes "alice";
  headscale_api_key = key;
  client_id = codes "id";
  client_secret = codes "pw";
  hmac_secret = codes "hm";
  wif_validator = none;
  wif_client_id = [];
}

abbrev response : Response
response = write_error 404 []

-- Chi finds the list of devices.
abbrev pub find : Text → Text → Found
find method path = record {
  below_api = true;
  result = matched;
  pattern = codes "/tailnet/{tailnet}/devices";
  route_pattern = codes "/api/v2/tailnet/{tailnet}/devices";
  params = (codes "tailnet", codes "-") ∷ [];
}

abbrev pub setup : Setup Text Unit
setup = record {
  router = router;
  hs = Tests.client;
  validator = λ jwt v. (invalid [], v);
  crypto = record { encode = λ bytes. bytes; mac = λ k msg. [] };
  decode = Tests.decoder;
  lib = record {
    find = find;
    not_found = response;
    method_not_allowed = response;
    exposition = λ samples observations errors. response;
    bytes_written = λ x. 0;
    split_host = λ addr. none;
  };
}

abbrev pub incoming : Incoming
incoming = record {
  request = record Tests.request { method = codes "GET" };
  path = codes "/api/v2/tailnet/-/devices";
  remote_addr = codes "10.0.0.1:4000";
  user_agent = codes "curl";
  observed = 1500000;
  logged = 1200000;
}

abbrev arrivals : List Moment
arrivals =
    record { time = 1; arrival = request incoming none } ∷ record { time = 2; arrival = tick } ∷ []

abbrev app : App Text Unit
app = run_app setup arrivals (new_app Tests.world tt)

run_app-refines_example : app.server ≡ session setup (events setup arrivals) (new_server tt)
run_app-refines_example = run_app-refines setup arrivals Tests.world tt

-- After a tick, the devices are listed, so the world changes.
abbrev quiet : App Text Unit
quiet = run_app setup (record { time = 2; arrival = tick } ∷ []) (new_app Tests.world tt)

listed : (build setup 3 none incoming quiet).1.world.calls ≡ list_nodes [] ∷ []
unfolding build new_app run_app find_route api_routes serve_target ◌==◌ call prometheus_middleware
    slog_middleware bearer_auth_middleware split_n equal_fold trim_space list_devices grpc_client
listed = refl

none_called : quiet.world.calls ≡ []
unfolding new_app run_app
none_called = refl

changes : (build setup 3 none incoming quiet).1.world ≢ quiet.world
changes e = cc (listed, none_called, ap (λ (w : World Text). w.calls) e)

build-IsAdmitted_example :
    ((found_by setup incoming).below_api ≡ true)
    × IsAdmitted quiet.server key 3 (routed setup incoming (found_by setup incoming))
build-IsAdmitted_example =
    build-IsAdmitted setup (record { time = 2; arrival = tick } ∷ []) Tests.world tt 0 3 none
      incoming (ground arith) changes

build-IsRead_example : Added IsRead quiet.world (build setup 3 none incoming quiet).1.world
build-IsRead_example = build-IsRead setup 3 none incoming quiet refl

-- The device 0, which the service does not have, is asked for.
abbrev missing : Text → Text → Found
missing method path = record {
  below_api = true;
  result = matched;
  pattern = codes "/device/{deviceId}";
  route_pattern = codes "/api/v2/device/{deviceId}";
  params = (codes "deviceId", codes "0") ∷ [];
}

abbrev of_failures : Setup (Text × List FailedCall) Unit
of_failures = record {
  router = router;
  hs = recording Tests.client;
  validator = λ jwt v. (invalid [], v);
  crypto = setup.crypto;
  decode = Tests.decoder;
  lib = record setup.lib { find = missing };
}

abbrev idle : App (Text × List FailedCall) Unit
idle = new_app (record { upstream = ([], []); calls = []; grpc_errors = []; log = [] }) tt

build-Reports_example : Reports idle.world (build of_failures 3 none incoming idle).1.world
build-Reports_example = build-Reports Tests.client of_failures 3 none incoming idle

abbrev devices_route : Route Target
devices_route = record {
  method = some (codes "GET");
  pattern = codes "/tailnet/{tailnet}/devices";
  target = simple devices;
}

devices_route-Among : Among devices_route api_routes
unfolding api_routes
devices_route-Among = inl refl

devices_route-Takes : Takes devices_route (codes "GET")
devices_route-Takes m e = ground (arith, e)

-- The arrivals without the tick.
abbrev undisturbed : App Text Unit
undisturbed =
    run_app setup (record { time = 1; arrival = request incoming none } ∷ [])
      (new_app Tests.world tt)

build-Served_example :
    (IsAdmitted app.server key 3 (seen setup incoming)
      → ServedBy setup 3 none incoming app
          (serve_target setup 3 devices_route.target (seen setup incoming) app.world))
    × (¬ IsAdmitted app.server key 3 (seen setup incoming)
        → ((build setup 3 none incoming app).0.status ≡ 401)
          × ((build setup 3 none incoming app).1.world ≡ app.world))
build-Served_example =
    build-Served setup arrivals Tests.world tt 0 3 none incoming devices_route (ground arith)
      devices_route-Among (refl, refl, refl) devices_route-Takes

build-without_ticks_example :
    ((build setup 3 none incoming app).0 ≡ (build setup 3 none incoming undisturbed).0)
    × ((build setup 3 none incoming app).1.world
        ≡ (build setup 3 none incoming undisturbed).1.world)
    × Path (Seen 3) (Quot.mk app.server.tokens) (Quot.mk undisturbed.server.tokens)
build-without_ticks_example =
    build-without_ticks setup arrivals Tests.world tt 0 3 none incoming (ground arith)

abbrev nothing_found : Found
nothing_found = record (find [] []) { result = no_route }

key_presented : request_token incoming.request ≡ key
unfolding request_token extract_bearer_token ◌==◌ split_n equal_fold trim_space
key_presented = refl

authorized : IsAuthorized app.server.tokens key 3 incoming.request
authorized = ((λ e. cc (key_presented, e)), inl key_presented)

dispatch-unsupported_example :
    dispatch setup 3 none nothing_found incoming.request app ≡ (write_error 501 unsupported, app)
dispatch-unsupported_example =
    dispatch-unsupported setup 3 none nothing_found incoming.request app unsupported authorized
      (unregistered refl refl)
