-- ===== src/Api/Router/Chain.antt =====
-- From the handlers that a request can reach to the whole of `Build`, under a relation of worlds.
use headtotails.Prelude.{ℕ, ◌≡◌, refl, Bool-cases, Option-cases, inl, inr, Option, none, some, List}
use headtotails.Time.{Time}
use headtotails.Api.Http.{Request}
use headtotails.Api.Handler.{World}
use headtotails.Api.Bearer.{refusal, bearer_auth_middleware}
use headtotails.Api.Router.Routes.{Target, api_routes}
use headtotails.Api.Router.{
  Search, matched, no_route, wrong_method, Found, Incoming, App, find_route, not_implemented_reason,
  prometheus_middleware, slog_middleware,
}
use headtotails.Api.Router.Serve.{
  Setup, serve_target, api_target, route_api, serve_api, dispatch, build, routed,
}
use headtotails.Api.Router.Guard.{world-route_open}
use headtotails.Api.Router.Admission.{found_by}

module _ {S V : Type 0} (setup : Setup S V) (R : World S → World S → Type 0)
    (same : (w : World S) → R w w) (now : Time) where
  -- Every handler that a request with this finding may reach.
  abbrev pub Served : Found → Request → Type 0
  Served found r =
      (target : Target)
      → find_route r.method found.pattern api_routes ≡ some target
      → (w : World S) → R w (serve_target setup now target r w).1

  module _ (found : Found) (r : Request) (served : Served found r) where
    api_target-Relates :
        (o : Option Target) (w : World S)
        → find_route r.method found.pattern api_routes ≡ o
        → R w (api_target setup now o r w).1
    unfolding not_implemented_reason
    api_target-Relates none w e = same w
    api_target-Relates (some target) w e = served target e w

    route_api-Relates :
        (result : Search) (w : World S) → R w (route_api setup now found result r w).1
    unfolding not_implemented_reason
    route_api-Relates matched w =
        api_target-Relates (find_route r.method found.pattern api_routes) w refl
    route_api-Relates no_route w = same w
    route_api-Relates wrong_method w = same w

    serve_api-Relates : (app : App S V) → R app.world (serve_api setup now found r app).1.world
    unfolding serve_api bearer_auth_middleware
    serve_api-Relates app =
        elim (Option-cases (refusal app.server.tokens setup.router.headscale_api_key now r)) [
          | inl admitted ↦ rw admitted (route_api-Relates found.result app.world)
          | inr (x, barred) ↦ rw barred (same app.world)
        ]

    dispatch-Relates :
        (random : Option (List ℕ)) (app : App S V)
        → R app.world (dispatch setup now random found r app).1.world
    unfolding dispatch
    dispatch-Relates random app = elim (Bool-cases found.below_api) [
      | inl below ↦ rw below (serve_api-Relates app)
      | inr outside ↦
          rw (outside, world-route_open setup now random found r app found.result) (same app.world)
    ]

  pub build-Relates :
      (random : Option (List ℕ)) (q : Incoming) (app : App S V)
      → Served (found_by setup q) (routed setup q (found_by setup q))
      → R app.world (build setup now random q app).1.world
  unfolding build prometheus_middleware slog_middleware
  build-Relates random q app served =
      dispatch-Relates (found_by setup q) (routed setup q (found_by setup q)) served random app
