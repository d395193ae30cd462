-- ===== src/Api/Router/Tenancy.antt =====
-- The calls of headscale that a process makes on auth keys, over all routes of
-- internal/api/router.go.
use headtotails.Prelude.{◌≡◌, refl, sym, subst, ◌≢◌, List, [], ◌∷◌, append-nil, All, All-append}
use headtotails.Text.{Text}
use headtotails.Time.{Time}
use headtotails.Headscale.{list_users, get_policy}
use headtotails.Headscale.Client.Laws.{IsScoped}
use headtotails.Api.Router.Routes.{
  Target, simple, device_authorized, keys, key_create, key, key_delete, user, policy,
  not_implemented,
}
use headtotails.Api.Router.{App, not_implemented_reason}
use headtotails.Api.Router.Serve.{
  Setup, serve_target, routed, Arrival, request, tick, Moment, advance, run_app, new_app,
}
use headtotails.Api.Router.Chain.{build-Relates}
use headtotails.Api.Router.Admission.{found_by}
use headtotails.Api.Http.{Request}
use headtotails.Api.Handler.{World}
use headtotails.Api.Endpoints.{asked}
use headtotails.Api.Endpoints.Answers.{serve-Answer}
use headtotails.Api.Keys.{dash}
use headtotails.Api.Keys.Creation.{create_key-Creation}
use headtotails.Api.Keys.Deletion.{delete_key-Deletion}
use headtotails.Api.Keys.Reading.{get_key-Reading, list_keys-Listing}
use headtotails.Api.Devices.Authorize.{authorize_device-Approval}
use headtotails.Api.Router.Permissions.{
  Permitted, Within, asked-Asks, Answer-Within, Deletion-Permitted, Creation-Permitted,
  Reading-Permitted, Listing-Permitted, Approval-Permitted, user_calls, policy_calls,
}

module _ {S V : Type 0} (setup : Setup S V) (sc : IsScoped setup.hs)
    (configured : setup.router.tailnet_name ≢ dash) (named : setup.router.tailnet_name ≢ []) where
  abbrev name : Text
  name = setup.router.tailnet_name

  serve_target-Within :
      (now : Time) (target : Target) (r : Request) (w : World S)
      → Within setup.hs name w (serve_target setup now target r w).1
  unfolding serve_target not_implemented_reason
  serve_target-Within now (simple e) r w =
      Answer-Within setup.hs name (asked setup.decode r e) w _
        (asked-Asks setup.hs name setup.decode r e) (serve-Answer setup.hs setup.decode r w e)
  serve_target-Within now device_authorized r w =
      let (t, calls, how) = authorize_device-Approval setup.hs setup.decode r w in
      (t, calls, Approval-Permitted setup.hs name how)
  serve_target-Within now keys r w =
      let (t, calls, how) = list_keys-Listing setup.hs sc name configured named r w in
      (t, calls, Listing-Permitted setup.hs name how)
  serve_target-Within now key_create r w =
      let (t, calls, how) = create_key-Creation setup.hs name configured now setup.decode r w in
      (t, calls, Creation-Permitted setup.hs name how)
  serve_target-Within now key r w =
      let (t, calls, how) = get_key-Reading setup.hs sc name configured named r w in
      (t, calls, Reading-Permitted setup.hs name how)
  serve_target-Within now key_delete r w =
      let (t, calls, how) = delete_key-Deletion setup.hs sc name configured named r w in
      (t, calls, Deletion-Permitted setup.hs name how)
  serve_target-Within now user r w =
      (list_users ∷ [], user_calls setup.hs name r w _ refl, (tt, tt))
  serve_target-Within now policy r w =
      (get_policy ∷ [], policy_calls setup.hs name r w _ refl, (tt, tt))
  serve_target-Within now (not_implemented reason) r w = ([], sym (append-nil w.calls), tt)

  Within-refl : (w : World S) → Within setup.hs name w w
  Within-refl w = ([], sym (append-nil w.calls), tt)

  advance-Within :
      (now : Time) (a : Arrival) (app : App S V)
      → Within setup.hs name app.world
          (advance setup (record { time = now; arrival = a }) app).world
  unfolding advance
  advance-Within now (request q random) app =
      build-Relates setup (Within setup.hs name) Within-refl now random q app
        (λ target found w. serve_target-Within now target (routed setup q (found_by setup q)) w)
  advance-Within now tick app = Within-refl app.world

  run_app_from-Permitted :
      (ms : List Moment) (app : App S V)
      → All (Permitted setup.hs name) app.world.calls
      → All (Permitted setup.hs name) (run_app setup ms app).world.calls
  unfolding run_app
  run_app_from-Permitted [] app h = h
  run_app_from-Permitted (m ∷ ms) app h =
      let (t, calls, permitted) = advance-Within m.time m.arrival app in
      run_app_from-Permitted ms (advance setup m app) (
        subst (All (Permitted setup.hs name)) (sym calls)
          (All-append (Permitted setup.hs name) app.world.calls t h permitted))

  -- With a nonempty tailnet name configured and a scoped client, after any arrivals at a process
  -- that has made no calls yet: every call that it has made to list auth keys lists those of the
  -- configured user, every one to create a key creates it for a user of that name whom the client
  -- listed, and every one to expire or delete a key has the id of one that the client listed as his.
  pub run_app-Permitted :
      (ms : List Moment) (w : World S) (v : V)
      → w.calls ≡ []
      → All (Permitted setup.hs name) (run_app setup ms (new_app w v)).world.calls
  unfolding new_app
  run_app-Permitted ms w v fresh =
      run_app_from-Permitted ms (new_app w v) (subst (All (Permitted setup.hs name)) (sym fresh) tt)
