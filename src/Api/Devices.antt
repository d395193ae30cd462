-- ===== src/Api/Devices.antt =====
-- internal/api/devices.go: the devices are the nodes of headscale.
pub mod Authorize
use headtotails.Prelude.{ℕ, Bool, Option, none, some, List, [], ◌∷◌, ◌++◌, map, if◌then◌else◌}
use headtotails.Text.{Text, codes}
use headtotails.Text.Decimal.{parse_uint}
use headtotails.Proto.{User, Node, node_at}
use headtotails.Model.{DeviceAuthorizeRequest}
use headtotails.Headscale.{
  Rpc, list_nodes, get_node, delete_node, expire_node, rename_node, set_tags, set_approved_routes,
  auth_approve, HeadscaleClient,
}
use headtotails.Translate.{node_to_device, node_to_device_routes}
use headtotails.Api.Http.{
  Request, JsonDecoder, url_param, Response, devices_json, device_json, routes_json, write_json,
  write_error, write_header,
}
use headtotails.Api.Handler.{World, Handler, HandlerFunc, pure, respond, run, ◌>>=◌, ◌>>◌}
use headtotails.Api.Errors.{call_or_error, or_bad_request}

unfoldable pub parse_device_id : Request → Option ℕ
parse_device_id r = parse_uint (url_param r (codes "deviceId"))

abbrev pub valid_id : {S : Type 0} → Request → Handler S ℕ
valid_id r = or_bad_request (codes "invalid device id") (parse_device_id r)

abbrev pub valid_body : {S A : Type 0} → Option A → Handler S A
valid_body = or_bad_request (codes "invalid request body")

-- The user that a node is approved for: "" if it has none.
abbrev pub approver : Option User → Text
approver none = []
approver (some u) = u.name

module _ {S : Type 0} (hs : HeadscaleClient S) where
  unfoldable pub list_devices : HandlerFunc S
  list_devices r = run do
    nodes ← call_or_error hs r (list_nodes [])
    pure (
        write_json 200
          (devices_json (record { devices = map (λ n. node_to_device (some n)) nodes })))

  unfoldable pub get_device : HandlerFunc S
  unfolding parse_device_id
  get_device r = run do
    id ← valid_id r
    node ← call_or_error hs r (get_node id)
    pure (write_json 200 (device_json (node_to_device node)))

  unfoldable pub delete_device : HandlerFunc S
  unfolding parse_device_id
  delete_device r =
      run do id ← valid_id r; call_or_error hs r (delete_node id); pure (write_header 200)

  -- `if req.Authorized { … }` of `AuthorizeDevice`.
  abbrev pub approve : Request → Bool → Option Node → Handler S Response
  approve r authorized node =
      if authorized
      then (do
        call_or_error hs r (auth_approve (approver (node_at node).user) (node_at node).node_key)
        pure (write_header 200))
      else pure (write_header 200)

  unfoldable pub authorize_device : JsonDecoder → HandlerFunc S
  unfolding parse_device_id
  authorize_device decode r = run do
    id ← valid_id r
    req ← valid_body (decode.device_authorize r)
    node ← call_or_error hs r (get_node id)
    approve r req.authorized node

  unfoldable pub expire_device : HandlerFunc S
  unfolding parse_device_id
  expire_device r =
      run do id ← valid_id r; call_or_error hs r (expire_node id); pure (write_header 200)

  unfoldable pub rename_device : JsonDecoder → HandlerFunc S
  unfolding parse_device_id
  rename_device decode r = run do
    id ← valid_id r
    req ← valid_body (decode.device_name r)
    node ← call_or_error hs r (rename_node id req.name)
    pure (write_json 200 (device_json (node_to_device node)))

  unfoldable pub set_device_tags : JsonDecoder → HandlerFunc S
  unfolding parse_device_id
  set_device_tags decode r = run do
    id ← valid_id r
    req ← valid_body (decode.device_tags r)
    node ← call_or_error hs r (set_tags id req.tags)
    pure (write_json 200 (device_json (node_to_device node)))

  unfoldable pub get_device_routes : HandlerFunc S
  unfolding parse_device_id
  get_device_routes r = run do
    id ← valid_id r
    node ← call_or_error hs r (get_node id)
    pure (write_json 200 (routes_json (node_to_device_routes node)))

  unfoldable pub set_device_routes : JsonDecoder → HandlerFunc S
  unfolding parse_device_id
  set_device_routes decode r = run do
    id ← valid_id r
    req ← valid_body (decode.device_routes r)
    node ← call_or_error hs r (set_approved_routes id req.routes)
    pure (write_json 200 (routes_json (node_to_device_routes node)))
