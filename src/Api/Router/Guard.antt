-- ===== src/Api/Router/Guard.antt =====
-- The bearer check that `Build` puts in front of /api/v2, and the world behind it.
use headtotails.Prelude.{
  ℕ, ◌≡◌, refl, ◌≢◌, ◌⊎◌, inl, inr, Bool, true, false, Option, none, some, List, [],
}
use headtotails.Text.{Text}
use headtotails.Time.{Time}
use headtotails.Api.Http.{Request, Response}
use headtotails.Api.TokenStore.{TokenStore}
use headtotails.Api.Bearer.{request_token, refusal, bearer_auth_middleware}
use headtotails.Api.Bearer.Laws.{IsLive, refusal-none_iff}
use headtotails.Api.Router.Routes.{Open, oauth_token, token_exchange, healthz, metrics, open_routes}
use headtotails.Api.Router.{Search, matched, no_route, wrong_method, Found, App, find_route}
use headtotails.Api.Router.Serve.{Setup, serve_api, serve_open, open_target, route_open, dispatch}

-- A request carries the API key of headscale or a live token of the store.
abbrev pub IsAuthorized : TokenStore → Text → Time → Request → Type 0
IsAuthorized ts key now r =
    (request_token r ≢ []) × ((request_token r ≡ key) ⊎ IsLive ts now (request_token r))

-- A refusal leaves the world alone.
module _ {S V : Type 0} (setup : Setup S V) (now : Time) (random : Option (List ℕ)) (found : Found)
    (r : Request) (app : App S V) where
  abbrev key : Text
  key = setup.router.headscale_api_key

  world-serve_api :
      (o : Option Response)
      → refusal app.server.tokens key now r ≡ o
      → ((serve_api setup now found r app).1.world ≡ app.world)
        ⊎ (refusal app.server.tokens key now r ≡ none)
  unfolding serve_api bearer_auth_middleware
  world-serve_api none p = inr p
  world-serve_api (some x) p = inl (rw p refl)

  world-serve_open :
      (target : Open) → (serve_open setup now random target r app).1.world ≡ app.world
  unfolding serve_open
  world-serve_open oauth_token = refl
  world-serve_open token_exchange = refl
  world-serve_open healthz = refl
  world-serve_open metrics = refl

  world-open_target : (o : Option Open) → (open_target setup now random o r app).1.world ≡ app.world
  world-open_target none = refl
  world-open_target (some target) = world-serve_open target

  pub world-route_open :
      (result : Search) → (route_open setup now random found result r app).1.world ≡ app.world
  world-route_open matched = world-open_target (find_route r.method found.pattern open_routes)
  world-route_open no_route = refl
  world-route_open wrong_method = refl

  world-dispatch :
      (below : Bool)
      → found.below_api ≡ below
      → (dispatch setup now random found r app).1.world ≢ app.world
      → (below ≡ true) × IsAuthorized app.server.tokens key now r
  unfolding dispatch
  world-dispatch true p changed =
      elim (world-serve_api (refusal app.server.tokens key now r) refl) [
        | inl same ↦ absurd (changed (rw p same))
        | inr admitted ↦ (refl, (refusal-none_iff app.server.tokens key now r).0 admitted)
      ]
  world-dispatch false p changed = absurd (changed (rw p (world-route_open found.result)))

  pub dispatch-IsAuthorized :
      (dispatch setup now random found r app).1.world ≢ app.world
      → (found.below_api ≡ true) × IsAuthorized app.server.tokens key now r
  dispatch-IsAuthorized = world-dispatch found.below_api refl
