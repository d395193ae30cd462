-- ===== src/Api/Router/Refinement.antt =====
-- The token store of the process beside the one of Sessions.
use headtotails.Prelude.{
  ℕ, ◌≤◌, ◌≡◌, refl, sym, ◌∙◌, ap, Bool, true, false, Option, none, some, List, [], ◌∷◌, ◌++◌,
  arith, Bool-cases, inl, inr, if◌then◌else◌,
}
use headtotails.Time.{Time}
use headtotails.Api.Http.{Request}
use headtotails.Api.Handler.{World}
use headtotails.Api.Sessions.{
  Action, asks, exchanges, purges, Event, Server, step, run, new_server, InOrder,
}
use headtotails.Api.Router.Routes.{Open, oauth_token, token_exchange, healthz, metrics, open_routes}
use headtotails.Api.Router.{
  Search, matched, no_route, wrong_method, Found, App, find_route, prometheus_middleware,
  slog_middleware,
}
use headtotails.Api.Router.Serve.{
  Setup, oauth_config, jwt_validator, serve_api, serve_open, open_target, route_open, routed,
  dispatch, build, Arrival, request, tick, Moment, advance, run_app, new_app,
}

-- The clock does not run backwards.
abbrev pub IsTimely : Time → List Moment → Time → Type 0
IsTimely before [] last = before ≤ last
IsTimely before (m ∷ ms) last = (before ≤ m.time) × IsTimely m.time ms last

-- What an arrival does to the token store: nothing, or one event.
module _ {S V : Type 0} (setup : Setup S V) where
  abbrev at : Time → Action → List Event
  at now a = record { time = now; action = a } ∷ []

  abbrev open_events : Time → Request → Option (List ℕ) → Option Open → List Event
  open_events now r random none = []
  open_events now r random (some oauth_token) = at now (asks r random)
  open_events now r random (some token_exchange) = at now (exchanges r random)
  open_events now r random (some healthz) = []
  open_events now r random (some metrics) = []

  abbrev searched : Time → Request → Option (List ℕ) → Found → Search → List Event
  searched now r random found matched =
      open_events now r random (find_route r.method found.pattern open_routes)
  searched now r random found no_route = []
  searched now r random found wrong_method = []

  abbrev found_events : Time → Request → Option (List ℕ) → Found → List Event
  found_events now r random found =
      if found.below_api then [] else searched now r random found found.result

  abbrev arrival_events : Time → Arrival → List Event
  arrival_events now (request q random) =
      let found = setup.lib.find q.request.method q.path in
      found_events now (routed setup q found) random found
  arrival_events now tick = at now purges

  abbrev pub events : List Moment → List Event
  events [] = []
  events (m ∷ ms) = arrival_events m.time m.arrival ++ events ms

  -- The store of Sessions after some events.
  abbrev pub session : List Event → Server V → Server V
  session = run (oauth_config setup) setup.crypto (jwt_validator setup) setup.router.wif_client_id

  session-append : (a b : List Event) (s : Server V) → session (a ++ b) s ≡ session b (session a s)
  unfolding run
  session-append [] b s = refl
  session-append (ev ∷ a) b s = session-append a b _

  module _ (now : Time) (random : Option (List ℕ)) (r : Request) (app : App S V) where
    server-open_target :
        (o : Option Open)
        → (open_target setup now random o r app).1.server
          ≡ session (open_events now r random o) app.server
    unfolding serve_open run step
    server-open_target none = refl
    server-open_target (some oauth_token) = refl
    server-open_target (some token_exchange) = refl
    server-open_target (some healthz) = refl
    server-open_target (some metrics) = refl

    server-route_open :
        (found : Found) (result : Search)
        → (route_open setup now random found result r app).1.server
          ≡ session (searched now r random found result) app.server
    unfolding run
    server-route_open found matched =
        server-open_target (find_route r.method found.pattern open_routes)
    server-route_open found no_route = refl
    server-route_open found wrong_method = refl

    server-dispatch :
        (found : Found) (below : Bool)
        → found.below_api ≡ below
        → (dispatch setup now random found r app).1.server
          ≡ session (found_events now r random found) app.server
    unfolding dispatch serve_api run
    server-dispatch found true p = rw p refl
    server-dispatch found false p = rw p (server-route_open found found.result)

  server-advance :
      (now : Time) (a : Arrival) (app : App S V)
      → (advance setup (record { time = now; arrival = a }) app).server
        ≡ session (arrival_events now a) app.server
  unfolding advance build prometheus_middleware slog_middleware run step
  server-advance now (request q random) app =
      let found = setup.lib.find q.request.method q.path in
      server-dispatch now random (routed setup q found) app found found.below_api refl
  server-advance now tick app = refl

  server-run_app :
      (ms : List Moment) (app : App S V)
      → (run_app setup ms app).server ≡ session (events ms) app.server
  unfolding run_app run
  server-run_app [] app = refl
  server-run_app (m ∷ ms) app =
      server-run_app ms (advance setup m app)
      ∙ ap (session (events ms)) (server-advance m.time m.arrival app)
      ∙ sym (session-append (arrival_events m.time m.arrival) (events ms) app.server)

  -- From the start of the process, whatever arrives: the token store, the state of the validator and
  -- the tokens that were sent are those of a run of Sessions, on the token requests, exchanges and
  -- purges that are among the arrivals.
  pub run_app-refines :
      (ms : List Moment) (w : World S) (v : V)
      → (run_app setup ms (new_app w v)).server ≡ session (events ms) (new_server v)
  unfolding new_app
  run_app-refines ms w v = server-run_app ms (new_app w v)

  -- The events of the store are in the order of the clock too.
  IsTimely-le : (ms : List Moment) (before last : Time) → IsTimely before ms last → before ≤ last
  IsTimely-le [] before last h = h
  IsTimely-le (m ∷ ms) before last (p, h) = omega (arith, IsTimely-le ms m.time last h)

  InOrder-earlier :
      (evs : List Event) (first before last : Time)
      → first ≤ before
      → InOrder before evs last
      → InOrder first evs last
  InOrder-earlier [] first before last le h = omega arith
  InOrder-earlier (ev ∷ evs) first before last le (p, h) = (omega arith, h)

  InOrder-open_events :
      (now before last : Time) (r : Request) (random : Option (List ℕ)) (o : Option Open)
      (evs : List Event)
      → before ≤ now
      → InOrder now evs last
      → InOrder before (open_events now r random o ++ evs) last
  InOrder-open_events now before last r random (some oauth_token) evs p h = (p, h)
  InOrder-open_events now before last r random (some token_exchange) evs p h = (p, h)
  InOrder-open_events now before last r random none evs p h =
      InOrder-earlier evs before now last p h
  InOrder-open_events now before last r random (some healthz) evs p h =
      InOrder-earlier evs before now last p h
  InOrder-open_events now before last r random (some metrics) evs p h =
      InOrder-earlier evs before now last p h

  InOrder-searched :
      (now before last : Time) (r : Request) (random : Option (List ℕ)) (found : Found)
      (result : Search) (evs : List Event)
      → before ≤ now
      → InOrder now evs last
      → InOrder before (searched now r random found result ++ evs) last
  InOrder-searched now before last r random found matched evs p h =
      InOrder-open_events now before last r random (find_route r.method found.pattern open_routes)
        evs p h
  InOrder-searched now before last r random found no_route evs p h =
      InOrder-earlier evs before now last p h
  InOrder-searched now before last r random found wrong_method evs p h =
      InOrder-earlier evs before now last p h

  InOrder-found :
      (now before last : Time) (r : Request) (random : Option (List ℕ)) (found : Found)
      (evs : List Event)
      → before ≤ now
      → InOrder now evs last
      → InOrder before (found_events now r random found ++ evs) last
  InOrder-found now before last r random found evs p h = elim (Bool-cases found.below_api) [
    | inl below ↦ rw below (InOrder-earlier evs before now last p h)
    | inr above ↦ rw above (InOrder-searched now before last r random found found.result evs p h)
  ]

  InOrder-arrival :
      (now before last : Time) (a : Arrival) (evs : List Event)
      → before ≤ now
      → InOrder now evs last
      → InOrder before (arrival_events now a ++ evs) last
  InOrder-arrival now before last (request q random) evs p h =
      InOrder-found now before last _ random (setup.lib.find q.request.method q.path) evs p h
  InOrder-arrival now before last tick evs p h = (p, h)

  pub events-InOrder :
      (ms : List Moment) (before last : Time)
      → IsTimely before ms last
      → InOrder before (events ms) last
  events-InOrder [] before last h = h
  events-InOrder (m ∷ ms) before last (p, h) =
      InOrder-arrival m.time before last m.arrival (events ms) p (events-InOrder ms m.time last h)
