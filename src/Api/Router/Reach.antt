-- ===== src/Api/Router/Reach.antt =====
-- The registrations of `Build` one by one: which of them a request is given to.
use headtotails.Prelude.{
  ℕ, ◌≡◌, refl, sym, subst, ap, inl, inr, Bool, true, false, not, ◌&&◌, Option, some, List, [], ◌∷◌,
  arith, Among, Option-cases,
}
use headtotails.Text.{Text, ◌==◌, eq_iff, eq_refl}
use headtotails.Time.{Time}
use headtotails.Api.Http.{Request, Response}
use headtotails.Api.Handler.{World}
use headtotails.Api.Bearer.{bearer_auth_middleware}
use headtotails.Api.Bearer.Laws.{bearer_auth_middleware_ext}
use headtotails.Api.Router.Routes.{Route, Open, Target, open_routes, api_routes}
use headtotails.Api.Router.{matched, Found, App, find_route, serves}
use headtotails.Api.Router.Serve.{Setup, route_api, serve_target, serve_api, serve_open, dispatch}

-- Some method is of both.
abbrev same_method : Option Text → Option Text → Bool
same_method (some m) (some n) = m == n
same_method _ _ = true

module _ {T : Type 0} where
  -- Some request matches both.
  abbrev overlaps : Route T → Route T → Bool
  overlaps a b = a.pattern == b.pattern && same_method a.method b.method

  abbrev clear_of : Route T → List (Route T) → Bool
  clear_of a [] = true
  clear_of a (b ∷ routes) = not (overlaps a b) && clear_of a routes

  abbrev distinct : List (Route T) → Bool
  distinct [] = true
  distinct (a ∷ routes) = clear_of a routes && distinct routes

  -- A request of this method is served by the registration.
  abbrev pub Takes : Route T → Text → Type 0
  Takes route method = (m : Text) → route.method ≡ some m → m ≡ method

  serves_self :
      (route : Route T) (method : Text)
      → Takes route method
      → serves route method route.pattern ≡ true
  serves_self route method h = elim (Option-cases route.method) [
    | inl any ↦ ground (arith, any, eq_refl route.pattern)
    | inr (m, only) ↦ ground (arith, only, h m only, eq_refl route.pattern, eq_iff m method)
  ]

  -- A registration that is clear of another takes no request of it.
  not_served :
      (a b : Route T) (method : Text)
      → Takes b method
      → overlaps a b ≡ false
      → serves a method b.pattern ≡ false
  not_served a b method h c = elim (Option-cases b.method) [
    | inl any ↦ ground (arith, any, c)
    | inr (m, only) ↦ ground (arith, only, h m only, c)
  ]

  clear_of-Among :
      (a b : Route T) (routes : List (Route T))
      → clear_of a routes ≡ true
      → Among b routes
      → overlaps a b ≡ false
  clear_of-Among a b [] h m = absurd m
  clear_of-Among a b (c ∷ routes) h (inl e) = rw e (ground (arith, h))
  clear_of-Among a b (c ∷ routes) h (inr m) = clear_of-Among a b routes (ground (arith, h)) m

  -- In a table with no two registrations that a request matches both, each is found.
  find_route-Among :
      (routes : List (Route T)) (route : Route T) (method : Text)
      → distinct routes ≡ true
      → Among route routes
      → Takes route method
      → find_route method route.pattern routes ≡ some route.target
  unfolding find_route
  find_route-Among [] route method d m h = absurd m
  find_route-Among (a ∷ routes) route method d (inl e) h =
      rw
        (subst (λ (b : Route T). serves b method route.pattern ≡ true) e
          (serves_self route method h))
        (ap (λ (b : Route T). some b.target) (sym e))
  find_route-Among (a ∷ routes) route method d (inr m) h =
      let clear = clear_of-Among a route routes (ground (arith, d)) m in
      rw (not_served a route method h clear)
        (find_route-Among routes route method (ground (arith, d)) m h)

api_distinct : distinct api_routes ≡ true
unfolding api_routes ◌==◌
api_distinct = refl

open_distinct : distinct open_routes ≡ true
unfolding open_routes ◌==◌
open_distinct = refl

-- Chi has found the registration, in the router at /api/v2 or outside of it.
abbrev pub FoundAt : {T : Type 0} → Found → Bool → Route T → Type 0
FoundAt found below route =
    (found.below_api ≡ below) × (found.result ≡ matched) × (found.pattern ≡ route.pattern)

module _ {S V : Type 0} (setup : Setup S V) (now : Time) (random : Option (List ℕ)) (found : Found)
    (r : Request) (app : App S V) where
  -- A request for which chi found a registration below /api/v2 is answered by the handler that was
  -- registered there, behind the bearer check, and by no other.
  pub dispatch-api :
      (route : Route Target)
      → Among route api_routes
      → FoundAt found true route
      → Takes route r.method
      → dispatch setup now random found r app ≡ (
        (bearer_auth_middleware app.server.tokens setup.router.headscale_api_key now
            (serve_target setup now route.target)
            r
            app.world).0,
        record app {
          world =
              (bearer_auth_middleware app.server.tokens setup.router.headscale_api_key now
                (serve_target setup now route.target)
                r
                app.world).1;
        },
      )
  unfolding dispatch serve_api
  dispatch-api route m (below, result, pattern) h = rw below (
      ap (λ (x : Response × World S). (x.0, record app { world = x.1 }))
        (bearer_auth_middleware_ext app.server.tokens setup.router.headscale_api_key now
          (route_api setup now found found.result) (serve_target setup now route.target) r app.world
          (rw (result, pattern, find_route-Among api_routes route r.method api_distinct m h) refl)))

  -- A request for which chi found a registration outside of /api/v2 is answered by the handler that
  -- was registered there.
  dispatch-open :
      (route : Route Open)
      → Among route open_routes
      → FoundAt found false route
      → Takes route r.method
      → dispatch setup now random found r app ≡ serve_open setup now random route.target r app
  unfolding dispatch
  dispatch-open route m (below, result, pattern) h =
      rw (below, result, pattern, find_route-Among open_routes route r.method open_distinct m h)
        refl
