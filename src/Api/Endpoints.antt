-- ===== src/Api/Endpoints.antt =====
-- The handlers that translate a request into one call of headscale: what each asks for, read off
-- the API of Tailscale, and the handler that serves it.
pub mod Answers
use headtotails.Prelude.{ℕ, Option, none, some, []}
use headtotails.Text.{Text, codes}
use headtotails.Text.Decimal.{parse_uint}
use headtotails.Headscale.{
  Rpc, list_nodes, get_node, delete_node, expire_node, rename_node, set_tags, set_approved_routes,
  list_users, delete_user, set_policy, HeadscaleClient,
}
use headtotails.Api.Http.{Request, JsonDecoder, url_param}
use headtotails.Api.Handler.{HandlerFunc}
use headtotails.Api.Devices
use headtotails.Api.Users
use headtotails.Api.Policy

pub data Endpoint : Type 0 where
  devices device device_delete device_expire device_name device_tags : Endpoint
  device_routes device_set_routes users user_delete policy_set : Endpoint

infixl 5 ◌>>=◌
abbrev pub ◌>>=◌ : {A B : Type 0} → Option A → (A → Option B) → Option B
none >>= f = none
some a >>= f = f a

-- The call that a request asks for; `none` if its path or its body makes no sense.
module _ (decode : JsonDecoder) (r : Request) where
  abbrev pub device_id : Option ℕ
  device_id = parse_uint (url_param r (codes "deviceId"))

  abbrev pub asked : Endpoint → Option Rpc
  asked devices = some (list_nodes [])
  asked device = do id ← device_id; some (get_node id)
  asked device_delete = do id ← device_id; some (delete_node id)
  asked device_expire = do id ← device_id; some (expire_node id)
  asked device_name = do
    id ← device_id
    body ← decode.device_name r
    some (rename_node id body.name)
  asked device_tags = do id ← device_id; body ← decode.device_tags r; some (set_tags id body.tags)
  asked device_routes = do id ← device_id; some (get_node id)
  asked device_set_routes = do
    id ← device_id
    body ← decode.device_routes r
    some (set_approved_routes id body.routes)
  asked users = some list_users
  asked user_delete = do id ← parse_uint (url_param r (codes "userId")); some (delete_user id)
  asked policy_set = do policy ← r.body; some (set_policy policy)

module _ {S : Type 0} (hs : HeadscaleClient S) (decode : JsonDecoder) where
  abbrev pub serve : Endpoint → HandlerFunc S
  serve devices = Devices.list_devices hs
  serve device = Devices.get_device hs
  serve device_delete = Devices.delete_device hs
  serve device_expire = Devices.expire_device hs
  serve device_name = Devices.rename_device hs decode
  serve device_tags = Devices.set_device_tags hs decode
  serve device_routes = Devices.get_device_routes hs
  serve device_set_routes = Devices.set_device_routes hs decode
  serve users = Users.list_users_handler hs
  serve user_delete = Users.delete_user_handler hs
  serve policy_set = Policy.set_policy_handler hs
