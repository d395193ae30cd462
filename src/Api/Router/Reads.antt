-- ===== src/Api/Router/Reads.antt =====
-- What a GET request makes of headscale, over all routes of internal/api/router.go.
use headtotails.Prelude.{
  ℕ, ◌≡◌, refl, subst, Bool, true, not, ◌&&◌, ◌||◌, Bool-cases, Option-cases, inl, inr, Option,
  none, some, List, [], ◌∷◌, arith,
}
use headtotails.Text.{Text, codes, ◌==◌}
use headtotails.Time.{Time}
use headtotails.Api.Calls.{Added}
use headtotails.Api.Router.Routes.{Route, Target, api_routes}
use headtotails.Api.Router.{Incoming, App, serves, find_route}
use headtotails.Api.Router.Serve.{Setup, build, routed}
use headtotails.Api.Router.Chain.{build-Relates}
use headtotails.Api.Router.Admission.{found_by}
use headtotails.Api.Calls.Reads.{IsRead}
use headtotails.Api.Calls.{Added-Composes, Added-Allows}
use headtotails.Api.Router.Targets.{reading, read_target}

-- The table: what is registered for GET reads.
abbrev gets : Route Target → Bool
gets route = elim route.method [ none ↦ true | some m ↦ m == codes "GET" ]

abbrev gets_read : List (Route Target) → Bool
gets_read [] = true
gets_read (route ∷ routes) = (not (gets route) || reading route.target) && gets_read routes

api_gets_read : gets_read api_routes ≡ true
unfolding api_routes ◌==◌
api_gets_read = refl

serves-gets :
    (route : Route Target) (pattern : Text)
    → serves route (codes "GET") pattern ≡ true
    → gets route ≡ true
serves-gets route pattern h = elim (Option-cases route.method) [
  | inl any ↦ rw any refl
  | inr (m, only) ↦ ground (arith, only, h)
]

find_route-reading :
    (routes : List (Route Target)) (pattern : Text) (target : Target)
    → gets_read routes ≡ true
    → find_route (codes "GET") pattern routes ≡ some target
    → reading target ≡ true
unfolding find_route
find_route-reading [] pattern target h p = cc
find_route-reading (route ∷ routes) pattern target h p =
    elim (Bool-cases (serves route (codes "GET") pattern)) [
      | inl own ↦
          let found : some route.target ≡ some target = ground (arith, own, p) in
          let may : reading route.target ≡ true =
            ground (arith, h, serves-gets route pattern own) in
          ground (arith, found, may)
      | inr other ↦
          let rest : find_route (codes "GET") pattern routes ≡ some target =
            ground (arith, other, p) in
          find_route-reading routes pattern target (ground (arith, h)) rest
    ]

-- Whatever the path, whatever chi finds for it and whoever asks: what a GET request adds to the calls
-- of headscale are calls that list or get something, none of the eleven that change something.
pub build-IsRead :
    {S V : Type 0} (setup : Setup S V) (now : Time) (random : Option (List ℕ)) (q : Incoming)
    (app : App S V)
    → q.request.method ≡ codes "GET"
    → Added IsRead app.world (build setup now random q app).1.world
build-IsRead setup now random q app get =
    let r = routed setup q (found_by setup q) in
    build-Relates setup (Added IsRead) (Added-Composes IsRead).same now random q app
      (λ target found w.
        read_target setup now r (Added-Allows IsRead setup.hs) w (λ q p. p) target
          (find_route-reading api_routes (found_by setup q).pattern target api_gets_read (
            subst (λ m. find_route m (found_by setup q).pattern api_routes ≡ some target) get
              found)))
