-- ===== src/Api/Endpoints/Answers.antt =====
-- The simple handlers of Endpoints: their call and their response.
use headtotails.Prelude.{ℕ, ◌≡◌, refl, sym, ap, Option, none, some, [], ◌∷◌, ◌++◌}
use headtotails.Text.{Text, codes}
use headtotails.Text.Decimal.{parse_uint}
use headtotails.Proto.{GrpcError, Outcome, ok, err}
use headtotails.Headscale.{
  Rpc, list_nodes, get_node, delete_node, expire_node, rename_node, set_tags, set_approved_routes,
  list_users, delete_user, set_policy, Reply, HeadscaleClient,
}
use headtotails.Api.Http.{Request, JsonDecoder, url_param, Response, write_error, write_json}
use headtotails.Api.Handler.{World, Handler, continue, pure, run, call, ◌>>=◌}
use headtotails.Api.Errors.{
  grpc_status_to_http, write_grpc_error, or_grpc_error, call_or_error, or_bad_request,
}
use headtotails.Api.Devices
use headtotails.Api.Users
use headtotails.Api.Policy
use headtotails.Api.Endpoints.{
  Endpoint, devices, device, device_delete, device_expire, device_name, device_tags, device_routes,
  device_set_routes, users, user_delete, policy_set, asked, serve, ◌>>=◌ as bind_option,
}

module _ {S : Type 0} (hs : HeadscaleClient S) where
  -- How a request that asks for a call is answered: a request that asks for none has status 400
  -- and no effect; a call that fails is reported by its status and counted once; a call that
  -- succeeds has status 200 and counts no error.
  pub data Answer (q? : Option Rpc) (w : World S) (x : Response × World S) : Type 0 where
    rejected : q? ≡ none → x.0.status ≡ 400 → x.1 ≡ w → Answer q? w x
    failed :
        (q : Rpc) (e : GrpcError)
        → q? ≡ some q
        → (hs [] q w.upstream).0 ≡ err e
        → x.0 ≡ write_error (grpc_status_to_http e.code) e.text
        → x.1.upstream ≡ (hs [] q w.upstream).1
        → x.1.calls ≡ w.calls ++ q ∷ []
        → x.1.grpc_errors ≡ w.grpc_errors ++ e.code ∷ []
        → Answer q? w x
    served :
        (q : Rpc) (a : Reply q)
        → q? ≡ some q
        → (hs [] q w.upstream).0 ≡ ok a
        → x.0.status ≡ 200
        → x.1.upstream ≡ (hs [] q w.upstream).1
        → x.1.calls ≡ w.calls ++ q ∷ []
        → x.1.grpc_errors ≡ w.grpc_errors
        → Answer q? w x

  settle :
      (r : Request) (w : World S) (q : Rpc) (render : Reply q → Response)
      → ((a : Reply q) → (render a).status ≡ 200)
      → (o : Outcome (Reply q)) (s : S) → hs [] q w.upstream ≡ (o, s)
      → Answer (some q) w (
          run {S = S}
            (λ w'. continue (or_grpc_error r o w') (λ a. pure (render a)))
            (record w { upstream = s; calls = w.calls ++ q ∷ [] }))
  unfolding write_grpc_error
  settle r w q render fine (err e) s p =
      failed q e refl (ap (λ (x : Outcome (Reply q) × S). x.0) p) refl
        (sym (ap (λ (x : Outcome (Reply q) × S). x.1) p)) refl refl
  settle r w q render fine (ok a) s p =
      served q a refl (ap (λ (x : Outcome (Reply q) × S). x.0) p) (fine a)
        (sym (ap (λ (x : Outcome (Reply q) × S). x.1) p)) refl refl

  one_call :
      (r : Request) (w : World S) (q : Rpc) (render : Reply q → Response)
      → ((a : Reply q) → (render a).status ≡ 200)
      → Answer (some q) w (run (call_or_error hs r q >>= λ a. pure (render a)) w)
  unfolding call
  one_call r w q render fine =
      settle r w q render fine (hs [] q w.upstream).0 (hs [] q w.upstream).1 refl

  checked :
      {A : Type 0} (w : World S) (msg : Text) (o : Option A) (f : A → Option Rpc)
      (k : A → Handler S Response)
      → ((a : A) → Answer (f a) w (run (k a) w))
      → Answer (bind_option o f) w (run (or_bad_request msg o >>= k) w)
  unfolding write_error
  checked w msg none f k h = rejected refl refl refl
  checked w msg (some a) f k h = h a

  module _ (decode : JsonDecoder) (r : Request) (w : World S) where
    abbrev id? : Option ℕ
    id? = parse_uint (url_param r (codes "deviceId"))

    -- Each of the eleven handlers makes the call that its request asks for and no other, with the
    -- id in the path and the fields of the body; a request that asks for none is refused with 400
    -- and leaves the world as it was; a failed call is reported by the status of its code and
    -- counted once, and a call that succeeds is reported by 200.
    pub serve-Answer : (e : Endpoint) → Answer (asked decode r e) w (serve hs decode e r w)
    unfolding Devices.list_devices Devices.get_device Devices.delete_device Devices.expire_device
        Devices.rename_device Devices.set_device_tags Devices.get_device_routes
        Devices.set_device_routes Users.list_users_handler Users.delete_user_handler
        Policy.set_policy_handler write_json
    serve-Answer devices = one_call r w (list_nodes []) _ (λ a. refl)
    serve-Answer users = one_call r w list_users _ (λ a. refl)
    serve-Answer policy_set =
        checked w _ r.body _ _ (λ policy. one_call r w (set_policy policy) _ (λ a. refl))
    serve-Answer user_delete =
        checked w _ (parse_uint (url_param r (codes "userId"))) _ _
          (λ id. one_call r w (delete_user id) _ (λ a. refl))
    serve-Answer device = checked w _ id? _ _ (λ id. one_call r w (get_node id) _ (λ a. refl))
    serve-Answer device_routes =
        checked w _ id? _ _ (λ id. one_call r w (get_node id) _ (λ a. refl))
    serve-Answer device_delete =
        checked w _ id? _ _ (λ id. one_call r w (delete_node id) _ (λ a. refl))
    serve-Answer device_expire =
        checked w _ id? _ _ (λ id. one_call r w (expire_node id) _ (λ a. refl))
    serve-Answer device_name = checked w _ id? _ _ (λ id.
        checked w _ (decode.device_name r) _ _
          (λ body. one_call r w (rename_node id body.name) _ (λ a. refl)))
    serve-Answer device_tags = checked w _ id? _ _ (λ id.
        checked w _ (decode.device_tags r) _ _
          (λ body. one_call r w (set_tags id body.tags) _ (λ a. refl)))
    serve-Answer device_set_routes = checked w _ id? _ _ (λ id.
        checked w _ (decode.device_routes r) _ _
          (λ body. one_call r w (set_approved_routes id body.routes) _ (λ a. refl)))
