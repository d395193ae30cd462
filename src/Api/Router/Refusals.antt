-- ===== src/Api/Router/Refusals.antt =====
-- The answers 401 and 501 of the router at /api/v2.
use headtotails.Prelude.{
  ℕ, ◌≡◌, refl, ◌∙◌, inl, inr, true, Option, some, List, arith, Among, Option-cases,
}
use headtotails.Text.{Text}
use headtotails.Time.{Time}
use headtotails.Api.Http.{Request, Response, write_error}
use headtotails.Api.TokenStore.{TokenStore}
use headtotails.Api.Bearer.{refusal, bearer_auth_middleware}
use headtotails.Api.Bearer.Laws.{refusal-none_iff}
use headtotails.Api.Router.Routes.{Route, Target, not_implemented, api_routes}
use headtotails.Api.Router.{no_route, Found, App, not_implemented_reason, unsupported}
use headtotails.Api.Router.Serve.{Setup, serve_target, serve_api, dispatch}
use headtotails.Api.Router.Guard.{IsAuthorized}
use headtotails.Api.Router.Reach.{Takes, FoundAt, dispatch-api}

refused_status :
    (ts : TokenStore) (key : Text) (now : Time) (r : Request) (x : Response)
    → refusal ts key now r ≡ some x
    → x.status ≡ 401
unfolding refusal write_error
refused_status ts key now r x h = ground (arith, h)

-- What a request below /api/v2 is told that has nothing behind it.
pub data Unsupported (found : Found) (r : Request) : Text → Type 0 where
  registered :
      (route : Route Target) (reason : Text)
      → Among route api_routes
      → FoundAt found true route
      → Takes route r.method
      → route.target ≡ not_implemented reason
      → Unsupported found r reason
  unregistered : found.below_api ≡ true → found.result ≡ no_route → Unsupported found r unsupported

module _ {S V : Type 0} (setup : Setup S V) (now : Time) (random : Option (List ℕ)) (found : Found)
    (r : Request) (app : App S V) where
  abbrev key : Text
  key = setup.router.headscale_api_key

  -- A request below /api/v2 without the API key and without a live token is answered with 401,
  -- whatever chi found there, and nothing changes.
  pub dispatch-refused :
      found.below_api ≡ true
      → ¬ IsAuthorized app.server.tokens key now r
      → ((dispatch setup now random found r app).0.status ≡ 401)
        × ((dispatch setup now random found r app).1 ≡ app)
  unfolding dispatch serve_api bearer_auth_middleware
  dispatch-refused below unauthorized = elim (Option-cases (refusal app.server.tokens key now r)) [
    | inl admitted ↦
        absurd (unauthorized ((refusal-none_iff app.server.tokens key now r).0 admitted))
    | inr (x, refused) ↦ (
      rw (below, refused) (refused_status app.server.tokens key now r x refused),
      rw (below, refused) refl,
    )
  ]

  -- An authorized request below /api/v2 for an endpoint that is not implemented is answered with
  -- 501 and the reason that was registered for it, or, where nothing was registered, with the
  -- reason for all others; and nothing changes.
  pub dispatch-unsupported :
      (reason : Text)
      → IsAuthorized app.server.tokens key now r
      → Unsupported found r reason
      → dispatch setup now random found r app ≡ (write_error 501 reason, app)
  unfolding dispatch serve_api bearer_auth_middleware not_implemented_reason serve_target
  dispatch-unsupported reason authorized (registered route _ m at h e) =
      let admitted = (refusal-none_iff app.server.tokens key now r).1 authorized in
      dispatch-api setup now random found r app route m at h ∙ rw (admitted, e) refl
  dispatch-unsupported _ authorized (unregistered below result) =
      let admitted = (refusal-none_iff app.server.tokens key now r).1 authorized in
      rw (below, result, admitted) refl
