-- ===== src/Api/Router/Admission.antt =====
-- The requests on which a process acts on headscale.
use headtotails.Prelude.{ℕ, ◌+◌, ◌≤◌, ◌≡◌, sym, subst, ◌≢◌, ◌↔◌, ◌⊎◌, true, Option, List, [], Among}
use headtotails.Text.{Text}
use headtotails.Time.{Time, hour}
use headtotails.Api.Http.{Request}
use headtotails.Api.Handler.{World}
use headtotails.Api.Bearer.{request_token}
use headtotails.Api.Bearer.Laws.{refusal-none_iff}
use headtotails.Api.Sessions.{Server, new_server}
use headtotails.Api.Sessions.Acceptance.{accepted_iff}
use headtotails.Api.Router.{Found, Incoming, App, prometheus_middleware, slog_middleware}
use headtotails.Api.Router.Serve.{
  Setup, oauth_config, jwt_validator, routed, build, Moment, run_app, new_app,
}
use headtotails.Api.Router.Guard.{IsAuthorized, dispatch-IsAuthorized}
use headtotails.Api.Router.Refinement.{IsTimely, events, session, run_app-refines, events-InOrder}

-- The request carries the API key, or a token that was sent at most an hour ago.
abbrev pub IsAdmitted : {V : Type 0} → Server V → Text → Time → Request → Type 0
IsAdmitted s key now r =
    (request_token r ≢ [])
    × ((request_token r ≡ key)
        ⊎ ((t : Time) × Among (request_token r, t) s.sent × (now ≤ t + hour)))

module _ {S V : Type 0} (setup : Setup S V) where
  abbrev pub found_by : Incoming → Found
  found_by q = setup.lib.find q.request.method q.path

  build-IsAuthorized :
      (now : Time) (random : Option (List ℕ)) (q : Incoming) (app : App S V)
      → (build setup now random q app).1.world ≢ app.world
      → ((found_by q).below_api ≡ true)
        × IsAuthorized app.server.tokens setup.router.headscale_api_key now
            (routed setup q (found_by q))
  unfolding build prometheus_middleware slog_middleware
  build-IsAuthorized now random q app changed =
      dispatch-IsAuthorized setup now random (found_by q) (routed setup q (found_by q)) app changed

  -- In the run of Sessions behind the process, the live tokens are those sent within the hour.
  session-IsAdmitted :
      (ms : List Moment) (v : V) (start now : Time) (r : Request)
      → IsTimely start ms now
      → IsAuthorized
          (session setup (events setup ms) (new_server v)).tokens
          setup.router.headscale_api_key
          now
          r
        ↔ IsAdmitted
            (session setup (events setup ms) (new_server v))
            setup.router.headscale_api_key
            now
            r
  session-IsAdmitted ms v start now r order =
      let key = setup.router.headscale_api_key in
      let s = session setup (events setup ms) (new_server v) in
      let (to, from) =
        accepted_iff (oauth_config setup) setup.crypto (jwt_validator setup)
          setup.router.wif_client_id (events setup ms) v start now key r
          (events-InOrder setup ms start now order) in
      let (to', from') = refusal-none_iff s.tokens key now r in
      (λ h. to (from' h), λ h. to' (from h))

  pub IsAuthorized-IsAdmitted :
      (ms : List Moment) (w : World S) (v : V) (start now : Time) (r : Request)
      → IsTimely start ms now
      → IsAuthorized
          (run_app setup ms (new_app w v)).server.tokens
          setup.router.headscale_api_key
          now
          r
        ↔ IsAdmitted (run_app setup ms (new_app w v)).server setup.router.headscale_api_key now r
  IsAuthorized-IsAdmitted ms w v start now r order =
      let key = setup.router.headscale_api_key in
      subst (λ (s : Server V). IsAuthorized s.tokens key now r ↔ IsAdmitted s key now r)
        (sym (run_app-refines setup ms w v)) (session-IsAdmitted ms v start now r order)

  -- After any arrivals in the order of the clock, a request that changes what the process knows of
  -- headscale, so also one that makes a call of it or counts or logs an error of it, is below
  -- /api/v2 and carries the API key of headscale or a token that was sent to a client at most an
  -- hour ago.
  pub build-IsAdmitted :
      (ms : List Moment) (w : World S) (v : V) (start now : Time) (random : Option (List ℕ))
      (q : Incoming)
      → IsTimely start ms now
      → (build setup now random q (run_app setup ms (new_app w v))).1.world
        ≢ (run_app setup ms (new_app w v)).world
      → ((found_by q).below_api ≡ true)
        × IsAdmitted
            (run_app setup ms (new_app w v)).server
            setup.router.headscale_api_key
            now
            (routed setup q (found_by q))
  build-IsAdmitted ms w v start now random q order changed =
      let r = routed setup q (found_by q) in
      let (below, authorized) =
        build-IsAuthorized now random q (run_app setup ms (new_app w v)) changed in
      (below, (IsAuthorized-IsAdmitted ms w v start now r order).0 authorized)
