-- ===== src/Api/Router/Targets.antt =====
-- The handlers below /api/v2 by the rules of Calls.
use headtotails.Prelude.{ℕ, ◌≡◌, refl, Bool, true, false, Option, []}
use headtotails.Text.{Text, codes}
use headtotails.Time.{Time}
use headtotails.Text.Decimal.{parse_uint}
use headtotails.Proto.{Node}
use headtotails.Headscale.{
  Rpc, Reply, list_nodes, list_pre_auth_keys, list_users, get_policy, get_node, delete_node,
  expire_node, rename_node, set_tags, set_approved_routes, expire_pre_auth_key, delete_pre_auth_key,
  delete_user, set_policy,
}
use headtotails.Api.Http.{Request, Response, url_param}
use headtotails.Api.Errors.{call_or_error}
use headtotails.Api.Handler.{World, Handler, pure, ◌>>=◌}
use headtotails.Api.Calls.{Allows, is_plain, Makes, Makes-pure, Makes-bind, Makes-or_bad_request}
use headtotails.Api.Keys.{tailnet_user, find_key, list_keys, get_key, create_key, delete_key}
use headtotails.Api.Devices.{
  valid_id, valid_body, approve, parse_device_id, list_devices, get_device, get_device_routes,
  delete_device, expire_device, rename_device, set_device_tags, set_device_routes, authorize_device,
}
use headtotails.Api.Users.{delete_user_handler, list_users_handler, get_user, or_user_not_found}
use headtotails.Translate.{find_user_by_id}
use headtotails.Api.Policy.{set_policy_handler, get_policy_handler}
use headtotails.Api.Endpoints
use headtotails.Api.Endpoints.{
  Endpoint, devices, device, device_delete, device_expire, device_name, device_tags, device_routes,
  device_set_routes, users, user_delete, policy_set,
}
use headtotails.Api.Router.Routes.{
  Target, simple, device_authorized, key_create, key_delete, keys, key, user, policy,
  not_implemented,
}
use headtotails.Api.Router.{not_implemented_reason}
use headtotails.Api.Router.Serve.{Setup, serve_target}
use headtotails.Api.Calls.Reads.{
  IsRead, or_user_not_found-Makes, shown, shown_by_id, find_key-Makes,
}

abbrev reading_endpoint : Endpoint → Bool
reading_endpoint devices = true
reading_endpoint device = true
reading_endpoint device_routes = true
reading_endpoint users = true
reading_endpoint _ = false

abbrev pub reading : Target → Bool
reading (simple e) = reading_endpoint e
reading keys = true
reading key = true
reading user = true
reading policy = true
reading (not_implemented reason) = true
reading _ = false

module _ {S V : Type 0} (setup : Setup S V) (now : Time) (r : Request)
    {R : World S → World S → Type 0} {P : Rpc → Type 0} (rules : Allows setup.hs R P)
    (w : World S) where
  abbrev name : Text
  name = setup.router.tailnet_name

  abbrev Ends : World S → Type 0
  Ends = R w

  module _ (may_read : (q : Rpc) → IsRead q → P q) where
    read_simple :
        (e : Endpoint)
        → reading_endpoint e ≡ true
        → Ends (Endpoints.serve setup.hs setup.decode e r w).1
    unfolding list_devices get_device get_device_routes list_users_handler
    read_simple devices p =
        (shown rules may_read r (list_nodes []) _ (may_read (list_nodes []) refl) refl).at w
    read_simple device p = (shown_by_id rules may_read r _).at w
    read_simple device_routes p = (shown_by_id rules may_read r _).at w
    read_simple users p = (shown rules may_read r list_users _ (may_read list_users refl) refl).at w
    read_simple device_delete p = cc
    read_simple device_expire p = cc
    read_simple device_name p = cc
    read_simple device_tags p = cc
    read_simple device_set_routes p = cc
    read_simple user_delete p = cc
    read_simple policy_set p = cc

    pub read_target :
        (target : Target) → reading target ≡ true → Ends (serve_target setup now target r w).1
    unfolding serve_target list_keys get_key get_user get_policy_handler not_implemented_reason
    read_target (simple e) p = read_simple e p
    read_target keys p =
        (Makes-bind rules.composes _
            (λ u.
              shown rules may_read r (list_pre_auth_keys u.name) _
                (may_read (list_pre_auth_keys u.name) refl) refl)
            (tailnet_user setup.hs name r) (rules.resolves name r (may_read list_users refl))).at
          w
    read_target key p =
        (Makes-bind rules.composes _ (λ k. Makes-pure rules.composes _)
            (find_key setup.hs name r (url_param r (codes "keyId")))
            (find_key-Makes rules may_read r name (url_param r (codes "keyId")))).at
          w
    read_target user p =
        (Makes-bind rules.composes _
            (λ us.
              Makes-bind rules.composes _ (λ u. Makes-pure rules.composes _)
                (or_user_not_found (url_param r (codes "userId"))
                  (find_user_by_id us (url_param r (codes "userId"))))
                (or_user_not_found-Makes rules may_read _ _))
            (call_or_error setup.hs r list_users)
            (rules.asks r list_users (may_read list_users refl) refl)).at
          w
    read_target policy p = (rules.shows r _ (may_read get_policy refl)).at w
    read_target (not_implemented reason) p = rules.composes.same w
    read_target device_authorized p = cc
    read_target key_create p = cc
    read_target key_delete p = cc

  module _ (all : (q : Rpc) → P q) where
    asked :
        (q : Rpc) (show : Reply q → Response)
        → is_plain q ≡ true
        → Makes R (call_or_error setup.hs r q >>= λ a. pure (show a))
    asked q show plain = shown rules (λ q _. all q) r q show (all q) plain

    with_id :
        (k : ℕ → Handler S Response) → ((id : ℕ) → Makes R (k id)) → Makes R (valid_id r >>= k)
    with_id k h =
        Makes-bind rules.composes k h (valid_id r)
          (Makes-or_bad_request rules.composes _ (parse_device_id r))

    with_body :
        {B : Type 0} (o : Option B) (k : B → Handler S Response)
        → ((b : B) → Makes R (k b))
        → Makes R (valid_body o >>= k)
    with_body o k h =
        Makes-bind rules.composes k h (valid_body o) (Makes-or_bad_request rules.composes _ o)

    approve-Makes :
        (authorized : Bool) (found : Option Node) → Makes R (approve setup.hs r authorized found)
    approve-Makes true found = asked _ _ refl
    approve-Makes false found = Makes-pure rules.composes _

    any_simple : (e : Endpoint) → Ends (Endpoints.serve setup.hs setup.decode e r w).1
    unfolding delete_device expire_device rename_device set_device_tags set_device_routes
        delete_user_handler set_policy_handler
    any_simple devices = read_simple (λ q _. all q) devices refl
    any_simple device = read_simple (λ q _. all q) device refl
    any_simple device_routes = read_simple (λ q _. all q) device_routes refl
    any_simple users = read_simple (λ q _. all q) users refl
    any_simple device_delete = (with_id _ (λ id. asked (delete_node id) _ refl)).at w
    any_simple device_expire = (with_id _ (λ id. asked (expire_node id) _ refl)).at w
    any_simple device_name =
        (with_id _ (λ id.
            with_body (setup.decode.device_name r) _
              (λ b. asked (rename_node id b.name) _ refl))).at
          w
    any_simple device_tags =
        (with_id _ (λ id.
            with_body (setup.decode.device_tags r) _ (λ b. asked (set_tags id b.tags) _ refl))).at
          w
    any_simple device_set_routes =
        (with_id _ (λ id.
            with_body (setup.decode.device_routes r) _
              (λ b. asked (set_approved_routes id b.routes) _ refl))).at
          w
    any_simple user_delete =
        (Makes-bind rules.composes _ (λ id. asked (delete_user id) _ refl) _
            (Makes-or_bad_request rules.composes _ (parse_uint (url_param r (codes "userId"))))).at
          w
    any_simple policy_set =
        (Makes-bind rules.composes _ (λ text. asked (set_policy text) _ refl) _
            (Makes-or_bad_request rules.composes _ r.body)).at
          w

    pub any_target : (target : Target) → Ends (serve_target setup now target r w).1
    unfolding serve_target authorize_device create_key delete_key
    any_target (simple e) = any_simple e
    any_target device_authorized =
        (with_id _ (λ id. with_body (setup.decode.device_authorize r) _ (λ b.
            Makes-bind rules.composes _ (approve-Makes b.authorized)
              (call_or_error setup.hs r (get_node id))
              (rules.asks r (get_node id) (all (get_node id)) refl)))).at
          w
    any_target key_create =
        (Makes-bind rules.composes _
            (λ u.
              Makes-bind rules.composes _ (λ req. asked _ _ refl) _
                (Makes-or_bad_request rules.composes _ (setup.decode.create_key r)))
            (tailnet_user setup.hs name r) (rules.resolves name r (all list_users))).at
          w
    any_target key_delete =
        (Makes-bind rules.composes _
            (λ k.
              Makes-bind rules.composes _ (λ _. asked (delete_pre_auth_key k.id) _ refl)
                (call_or_error setup.hs r (expire_pre_auth_key k.id))
                (rules.asks r (expire_pre_auth_key k.id) (all (expire_pre_auth_key k.id)) refl))
            (find_key setup.hs name r (url_param r (codes "keyId")))
            (find_key-Makes rules (λ q _. all q) r name (url_param r (codes "keyId")))).at
          w
    any_target keys = read_target (λ q _. all q) keys refl
    any_target key = read_target (λ q _. all q) key refl
    any_target user = read_target (λ q _. all q) user refl
    any_target policy = read_target (λ q _. all q) policy refl
    any_target (not_implemented reason) = read_target (λ q _. all q) (not_implemented reason) refl
