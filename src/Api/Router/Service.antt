-- ===== src/Api/Router/Service.antt =====
-- The answers of `Build` to requests below /api/v2 for which a route is registered.
use headtotails.Prelude.{ℕ, ◌≡◌, refl, ap, ◌∙◌, true, Option, List, Among}
use headtotails.Time.{Time}
use headtotails.Api.Http.{Request, Response}
use headtotails.Api.Handler.{World}
use headtotails.Api.Bearer.{bearer_auth_middleware}
use headtotails.Api.Bearer.Laws.{refusal-none_iff}
use headtotails.Api.Router.Routes.{Route, Target, api_routes}
use headtotails.Api.Router.{Incoming, App, prometheus_middleware, slog_middleware}
use headtotails.Api.Router.Serve.{
  Setup, routed, dispatch, build, serve_target, Moment, run_app, new_app,
}
use headtotails.Api.Router.Guard.{IsAuthorized}
use headtotails.Api.Router.Refinement.{IsTimely}
use headtotails.Api.Router.Admission.{IsAdmitted, found_by, IsAuthorized-IsAdmitted}
use headtotails.Api.Router.Reach.{FoundAt, Takes, dispatch-api}
use headtotails.Api.Router.Refusals.{dispatch-refused}

module _ {S V : Type 0} (setup : Setup S V) where
  -- The request as the handlers see it.
  abbrev pub seen : Incoming → Request
  seen q = routed setup q (found_by setup q)

  -- The response and the world after a request are those of a handler.
  abbrev pub ServedBy : Time → Option (List ℕ) → Incoming → App S V → Response × World S → Type 0
  ServedBy now random q app x =
      ((build setup now random q app).0 ≡ x.0) × ((build setup now random q app).1.world ≡ x.1)

  -- The dispatch of a request decides its response and the world after it.
  build-dispatch :
      (now : Time) (random : Option (List ℕ)) (q : Incoming) (app : App S V)
      → ServedBy now random q app (
        (dispatch setup now random (found_by setup q) (seen q) app).0,
        (dispatch setup now random (found_by setup q) (seen q) app).1.world,
      )
  unfolding build prometheus_middleware slog_middleware
  build-dispatch now random q app = (refl, refl)

  module _ (now : Time) (random : Option (List ℕ)) (q : Incoming) (app : App S V)
      (route : Route Target) (m : Among route api_routes)
      (at : FoundAt (found_by setup q) true route) (takes : Takes route (seen q).method) where
    authorized_served :
        IsAuthorized app.server.tokens setup.router.headscale_api_key now (seen q)
        → ServedBy now random q app (serve_target setup now route.target (seen q) app.world)
    unfolding bearer_auth_middleware
    authorized_served authorized =
        let key = setup.router.headscale_api_key in
        let admitted = (refusal-none_iff app.server.tokens key now (seen q)).1 authorized in
        let (x, w) = build-dispatch now random q app in
        let e = dispatch-api setup now random (found_by setup q) (seen q) app route m at takes in
        (
          x ∙ ap (λ (y : Response × App S V). y.0) e ∙ rw admitted refl,
          w ∙ ap (λ (y : Response × App S V). y.1.world) e ∙ rw admitted refl,
        )

  -- After any arrivals in the order of the clock, a request below /api/v2 for which chi found a
  -- registration: where it carries the API key of headscale or a token that was sent to a client at
  -- most an hour ago, its answer and what it does to headscale are those of the handler that was
  -- registered there and of no other, the middlewares change neither; where it carries neither, it
  -- is answered with 401 and does nothing to headscale.
  pub build-Served :
      (ms : List Moment) (w : World S) (v : V) (start now : Time) (random : Option (List ℕ))
      (q : Incoming) (route : Route Target)
      → IsTimely start ms now
      → Among route api_routes
      → FoundAt (found_by setup q) true route
      → Takes route (seen q).method
      → (IsAdmitted
            (run_app setup ms (new_app w v)).server
            setup.router.headscale_api_key
            now
            (seen q)
          → ServedBy now random q
              (run_app setup ms (new_app w v))
              (serve_target setup now route.target (seen q) (run_app setup ms (new_app w v)).world))
        × (¬ IsAdmitted
              (run_app setup ms (new_app w v)).server
              setup.router.headscale_api_key
              now
              (seen q)
            → ((build setup now random q (run_app setup ms (new_app w v))).0.status ≡ 401)
              × ((build setup now random q (run_app setup ms (new_app w v))).1.world
                  ≡ (run_app setup ms (new_app w v)).world))
  build-Served ms w v start now random q route order m at takes =
      let app = run_app setup ms (new_app w v) in
      let (to, from) = IsAuthorized-IsAdmitted setup ms w v start now (seen q) order in
      (
        λ admitted. authorized_served now random q app route m at takes (from admitted),
        λ refused.
            let (x, kept) = build-dispatch now random q app in
            let (code, same) =
              dispatch-refused setup now random (found_by setup q) (seen q) app at.0
                (λ h. refused (to h)) in
            (ap (λ (y : Response). y.status) x ∙ code, kept ∙ ap (λ (a : App S V). a.world) same),
      )
