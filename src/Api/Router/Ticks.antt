-- ===== src/Api/Router/Ticks.antt =====
-- The ticks of `purgeLoop` among the arrivals at the process.
use headtotails.Prelude.{ℕ, ◌≤◌, ◌≡◌, refl, Option, List, [], ◌∷◌, arith}
use mathlib.Core.Quot
use headtotails.Time.{Time}
use headtotails.Api.Handler.{World}
use headtotails.Api.Sessions.Seen.{Seen}
use headtotails.Api.Router.{Incoming, App}
use headtotails.Api.Router.Serve.{
  Setup, build, Arrival, request, tick, Moment, advance, run_app, new_app,
}
use headtotails.Api.Router.Refinement.{IsTimely}
use headtotails.Api.Router.Same.{Same, later, purged, build-Same}

abbrev pub without_ticks : List Moment → List Moment
without_ticks [] = []
without_ticks (m ∷ ms) =
    let rest = without_ticks ms in elim m.arrival [ tick ↦ rest | _ ↦ m ∷ rest ]

module _ {S V : Type 0} (setup : Setup S V) where
  -- The rest of a run, after this arrival.
  arrival-Same :
      (arrival : Arrival) (ms : List Moment) (a b : App S V) (before now last : Time)
      → before ≤ now
      → Same before a b
      → ((c d : App S V)
          → Same now c d
          → Same last (run_app setup ms c) (run_app setup (without_ticks ms) d))
      → Same last
          (run_app setup ms (advance setup (record { time = now; arrival = arrival }) a))
          (run_app setup (without_ticks (record { time = now; arrival = arrival } ∷ ms)) b)
  unfolding run_app advance
  arrival-Same (request q random) ms a b before now last le h rest =
      rest _ _ (build-Same setup before now le a b h random q).1
  arrival-Same tick ms a b before now last le h rest = rest _ _ (purged setup before now le a b h)

  run_app-Same :
      (ms : List Moment) (a b : App S V) (before last : Time)
      → IsTimely before ms last
      → Same before a b
      → Same last (run_app setup ms a) (run_app setup (without_ticks ms) b)
  unfolding run_app
  run_app-Same [] a b before last le h = later setup before last le a b h
  run_app-Same (m ∷ ms) a b before last (le, order) h =
      arrival-Same m.arrival ms a b before m.time last le h
        (λ c d. run_app-Same ms c d m.time last order)

  -- After any arrivals in the order of the clock, the ticks among them might as well have been left
  -- out: the next request is answered alike and does the same to headscale, and the token stores are
  -- the same in the quotient that forgets of a store all that no request can tell from then on.
  pub build-without_ticks :
      (ms : List Moment) (w : World S) (v : V) (start now : Time) (random : Option (List ℕ))
      (q : Incoming)
      → IsTimely start ms now
      → ((build setup now random q (run_app setup ms (new_app w v))).0
          ≡ (build setup now random q (run_app setup (without_ticks ms) (new_app w v))).0)
        × ((build setup now random q (run_app setup ms (new_app w v))).1.world
            ≡ (build setup now random q (run_app setup (without_ticks ms) (new_app w v))).1.world)
        × Path
            (Seen now)
            (Quot.mk (run_app setup ms (new_app w v)).server.tokens)
            (Quot.mk (run_app setup (without_ticks ms) (new_app w v)).server.tokens)
  build-without_ticks ms w v start now random q order =
      let unchanged : Same start (new_app w v) (new_app w v) = record {
        server = (λ k t le. refl, refl, refl);
        world = refl;
        samples = refl;
        observations = refl;
        accesses = refl;
      } in
      let h = run_app-Same ms (new_app w v) (new_app w v) start now order unchanged in
      let (e, h') = build-Same setup now now (omega arith) _ _ h random q in
      (e, h'.world, Quot.sound h.server.0)
