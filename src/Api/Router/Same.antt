-- ===== src/Api/Router/Same.antt =====
-- Two processes that differ in expired tokens alone, and the requests they serve.
use headtotails.Prelude.{
  ℕ, ◌≤◌, ◌≡◌, refl, ap, subst, Bool-cases, inl, inr, Option, none, some, List,
}
use headtotails.Text.{Text}
use headtotails.Time.{Time}
use headtotails.Api.Http.{Request, Response}
use headtotails.Api.Handler.{World, HandlerFunc}
use headtotails.Api.TokenStore.{TokenStore, purge}
use headtotails.Api.Bearer.{refusal, bearer_auth_middleware}
use headtotails.Api.Sessions.Alike.{
  Alike, kept, put, oauth_token_handler-Alike, token_exchange_handler-BothAlike,
}
use headtotails.Api.Sessions.Seen.{
  SameFrom, SameFrom-later, SameFrom-purge, refusal-SameFrom, Agree, answered-Agree,
}
use headtotails.Api.Router.Routes.{Open, oauth_token, token_exchange, healthz, metrics, open_routes}
use headtotails.Api.Router.{
  Search, matched, no_route, wrong_method, Found, Incoming, App, find_route, prometheus_middleware,
  slog_middleware,
}
use headtotails.Api.Router.Serve.{
  Setup, oauth_config, jwt_validator, route_api, serve_api, serve_open, sent_token, open_target,
  route_open, routed, dispatch, build,
}
use headtotails.Api.Router.Admission.{found_by}

-- The processes agree on all but the tokens that no request can tell from then on.
pub record Same {S V : Type 0} (last : Time) (a b : App S V) : Type 0 where
  pub server : Agree last a.server b.server
  pub world : a.world ≡ b.world
  pub samples : a.samples ≡ b.samples
  pub observations : a.observations ≡ b.observations
  pub accesses : a.accesses ≡ b.accesses

abbrev pub SameAnswer : {S V : Type 0} → Time → Response × App S V → Response × App S V → Type 0
SameAnswer now x y = (x.0 ≡ y.0) × Same now x.1 y.1

same_response : (ts us : TokenStore) (x y : Response × TokenStore) → Alike ts us x y → x.0 ≡ y.0
same_response ts us x y (kept e p q) = e
same_response ts us x y (put tok entry e p q) = e

bearer_alike :
    {S : Type 0} (ts us : TokenStore) (key : Text) (now : Time) (f : HandlerFunc S) (r : Request)
    (w u : World S)
    → refusal ts key now r ≡ refusal us key now r
    → w ≡ u
    → bearer_auth_middleware ts key now f r w ≡ bearer_auth_middleware us key now f r u
unfolding bearer_auth_middleware
bearer_alike ts us key now f r w u e same = rw (e, same) refl

-- What a process keeps of a request beside its token store and its world.
middlewares-Same :
    {S V : Type 0} (setup : Setup S V) (now : Time) (q : Incoming) (r : Request) (x y : Response)
    (a b : App S V)
    → x ≡ y
    → Same now a b
    → Same now
        (prometheus_middleware q r x (slog_middleware setup.lib q r x a))
        (prometheus_middleware q r y (slog_middleware setup.lib q r y b))
unfolding prometheus_middleware slog_middleware
middlewares-Same setup now q r x y a b e h = record {
  server = h.server;
  world = h.world;
  samples = rw (e, h.samples) refl;
  observations = rw h.observations refl;
  accesses = rw (e, h.accesses) refl;
}

module _ {S V : Type 0} (setup : Setup S V) (last now : Time) (order : last ≤ now) (a b : App S V)
    (h : Same last a b) where
  abbrev stores : SameFrom now a.server.tokens b.server.tokens
  stores = SameFrom-later last a.server.tokens b.server.tokens h.server.0 now order

  pub later : Same now a b
  later = record {
    server = (stores, h.server.1, h.server.2);
    world = h.world;
    samples = h.samples;
    observations = h.observations;
    accesses = h.accesses;
  }

  pub purged :
      Same now (record a { server = record a.server { tokens = purge now a.server.tokens } }) b
  purged = record {
    server = (
      SameFrom-purge last a.server.tokens b.server.tokens h.server.0 now order,
      h.server.1,
      h.server.2,
    );
    world = h.world;
    samples = h.samples;
    observations = h.observations;
    accesses = h.accesses;
  }

  sent_token-Same :
      (x y : Response × TokenStore) (v v' : V)
      → Alike a.server.tokens b.server.tokens x y
      → v ≡ v'
      → SameAnswer now (sent_token setup now a x v) (sent_token setup now b y v')
  sent_token-Same x y v v' alike same_v = (
    same_response _ _ x y alike,
    record {
      server = answered-Agree now a.server b.server stores h.server.2 x y v v' alike same_v;
      world = h.world;
      samples = h.samples;
      observations = h.observations;
      accesses = h.accesses;
    },
  )

  module _ (random : Option (List ℕ)) (r : Request) where
    serve_open-Same :
        (target : Open)
        → SameAnswer now
            (serve_open setup now random target r a)
            (serve_open setup now random target r b)
    unfolding serve_open
    serve_open-Same oauth_token =
        sent_token-Same _ _ _ _
          (oauth_token_handler-Alike a.server.tokens b.server.tokens (oauth_config setup)
            setup.crypto random now r)
          h.server.1
    serve_open-Same token_exchange =
        let (alike, same_v) =
          token_exchange_handler-BothAlike a.server.tokens b.server.tokens setup.router.hmac_secret
            setup.router.wif_client_id setup.crypto random now (jwt_validator setup) r
            a.server.validator_state in
        subst
          (λ (v : V). SameAnswer now (serve_open setup now random token_exchange r a) (
            serve_open setup now random token_exchange r
              (record b { server = record b.server { validator_state = v } })))
          h.server.1 (sent_token-Same _ _ _ _ alike same_v)
    serve_open-Same healthz = (refl, later)
    serve_open-Same metrics = (rw (h.samples, h.observations, h.world) refl, later)

    open_target-Same :
        (o : Option Open)
        → SameAnswer now (open_target setup now random o r a) (open_target setup now random o r b)
    open_target-Same none = (refl, later)
    open_target-Same (some target) = serve_open-Same target

    route_open-Same :
        (found : Found) (search : Search)
        → SameAnswer now
            (route_open setup now random found search r a)
            (route_open setup now random found search r b)
    route_open-Same found matched = open_target-Same (find_route r.method found.pattern open_routes)
    route_open-Same found no_route = (refl, later)
    route_open-Same found wrong_method = (refl, later)

    serve_api-Same :
        (found : Found)
        → SameAnswer now (serve_api setup now found r a) (serve_api setup now found r b)
    unfolding serve_api
    serve_api-Same found =
        let key = setup.router.headscale_api_key in
        let e =
          bearer_alike a.server.tokens b.server.tokens key now
            (route_api setup now found found.result) r a.world b.world
            (refusal-SameFrom last a.server.tokens b.server.tokens h.server.0 key now r order)
            h.world in
        (
          ap (λ (x : Response × World S). x.0) e,
          record {
            server = later.server;
            world = ap (λ (x : Response × World S). x.1) e;
            samples = h.samples;
            observations = h.observations;
            accesses = h.accesses;
          },
        )

    dispatch-Same :
        (found : Found)
        → SameAnswer now (dispatch setup now random found r a) (dispatch setup now random found r b)
    unfolding dispatch
    dispatch-Same found = elim (Bool-cases found.below_api) [
      | inl below ↦ rw below (serve_api-Same found)
      | inr outside ↦ rw outside (route_open-Same found found.result)
    ]

  pub build-Same :
      (random : Option (List ℕ)) (q : Incoming)
      → SameAnswer now (build setup now random q a) (build setup now random q b)
  unfolding build
  build-Same random q =
      let r = routed setup q (found_by setup q) in
      let (e, h') = dispatch-Same random r (found_by setup q) in
      (e, middlewares-Same setup now q r _ _ _ _ e h')
