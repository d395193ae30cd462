-- ===== src/Api/Router/Routes.antt =====
-- internal/api/router.go: the registrations of `Build`, in their order, and the reasons why an
-- endpoint is not implemented. The pattern of a route below /api/v2 is the one registered in the
-- router mounted there.
use headtotails.Prelude.{Option, none, some, List, [], ◌∷◌}
use headtotails.Text.{Text, codes}
use headtotails.Api.Endpoints.{
  Endpoint, devices, device, device_delete, device_expire, device_name, device_tags, device_routes,
  device_set_routes, users, user_delete, policy_set,
}

-- `r.Get`, `r.Post` and the like, or `r.Handle` for every method.
pub record Route (T : Type 0) : Type 0 where
  pub method : Option Text
  pub pattern : Text
  pub target : T

module _ {T : Type 0} (pattern : Text) (target : T) where
  abbrev get : Route T
  get = record { method = some (codes "GET"); pattern = pattern; target = target }

  abbrev post : Route T
  post = record { method = some (codes "POST"); pattern = pattern; target = target }

  abbrev put : Route T
  put = record { method = some (codes "PUT"); pattern = pattern; target = target }

  abbrev patch : Route T
  patch = record { method = some (codes "PATCH"); pattern = pattern; target = target }

  abbrev delete : Route T
  delete = record { method = some (codes "DELETE"); pattern = pattern; target = target }

  abbrev handle : Route T
  handle = record { method = none; pattern = pattern; target = target }

-- The handlers outside of the router at /api/v2.
pub data Open : Type 0 where
  oauth_token token_exchange healthz metrics : Open

-- The handlers below /api/v2; the simple ones are those of Endpoints.
pub data Target : Type 0 where
  simple : Endpoint → Target
  device_authorized keys key_create key key_delete user policy : Target
  not_implemented : Text → Target

unfoldable pub open_routes : List (Route Open)
open_routes =
    post (codes "/oauth/token") oauth_token
    ∷ post (codes "/api/v2/oauth/token") oauth_token
    ∷ post (codes "/oauth/token-exchange") token_exchange
    ∷ post (codes "/api/v2/oauth/token-exchange") token_exchange
    ∷ get (codes "/healthz") healthz
    ∷ handle (codes "/metrics") metrics
    ∷ []

abbrev device_ip : Text
device_ip = codes "headscale assigns IPs at registration; no runtime IP assignment API"

abbrev device_key : Text
device_key = codes "device key expiry management is a Tailscale SaaS feature"

abbrev posture : Text
posture = codes "device posture is a Tailscale SaaS feature; headscale has no posture API"

abbrev device_invites : Text
device_invites =
    codes "device invites are a Tailscale SaaS feature; headscale has no invite concept"

abbrev oauth_keys : Text
oauth_keys = codes "OAuth client and federated identity keys are Tailscale SaaS features"

abbrev user_saas : Text
user_saas =
    codes
      "user approval/suspension/roles are Tailscale SaaS features; headscale manages users directly"

abbrev acl_saas : Text
acl_saas = codes "headscale has no dedicated policy validation or preview gRPC endpoint"

abbrev dns : Text
dns = codes "headscale manages DNS via its config file; no gRPC API for runtime DNS changes"

abbrev webhooks : Text
webhooks = codes "webhooks are a Tailscale SaaS feature; headscale has no event bus"

abbrev logging : Text
logging = codes "log streaming is a Tailscale SaaS feature; headscale logs to stdout"

abbrev contacts : Text
contacts = codes "contacts are a Tailscale SaaS feature; headscale has no contact management"

abbrev user_invites : Text
user_invites = codes "user invites are a Tailscale SaaS feature; headscale creates users directly"

abbrev posture_integ : Text
posture_integ =
    codes "posture integrations are a Tailscale SaaS feature; headscale has no posture API"

abbrev services : Text
services = codes "VIP services are a Tailscale SaaS feature; headscale has no equivalent"

abbrev settings : Text
settings = codes "tailnet settings (auto-updates, billing, HTTPS) are Tailscale SaaS features"

unfoldable pub api_routes : List (Route Target)
api_routes =
    get (codes "/tailnet/{tailnet}/devices") (simple devices)
    ∷ get (codes "/device/{deviceId}") (simple device)
    ∷ delete (codes "/device/{deviceId}") (simple device_delete)
    ∷ post (codes "/device/{deviceId}/authorized") device_authorized
    ∷ post (codes "/device/{deviceId}/expire") (simple device_expire)
    ∷ post (codes "/device/{deviceId}/name") (simple device_name)
    ∷ post (codes "/device/{deviceId}/tags") (simple device_tags)
    ∷ get (codes "/device/{deviceId}/routes") (simple device_routes)
    ∷ post (codes "/device/{deviceId}/routes") (simple device_set_routes)
    ∷ post (codes "/device/{deviceId}/ip") (not_implemented device_ip)
    ∷ post (codes "/device/{deviceId}/key") (not_implemented device_key)
    ∷ patch (codes "/tailnet/{tailnet}/device-attributes") (not_implemented posture)
    ∷ get (codes "/device/{deviceId}/attributes") (not_implemented posture)
    ∷ post (codes "/device/{deviceId}/attributes/{key}") (not_implemented posture)
    ∷ delete (codes "/device/{deviceId}/attributes/{key}") (not_implemented posture)
    ∷ get (codes "/device/{deviceId}/device-invites") (not_implemented device_invites)
    ∷ post (codes "/device/{deviceId}/device-invites") (not_implemented device_invites)
    ∷ get (codes "/tailnet/{tailnet}/keys") keys
    ∷ post (codes "/tailnet/{tailnet}/keys") key_create
    ∷ get (codes "/tailnet/{tailnet}/keys/{keyId}") key
    ∷ delete (codes "/tailnet/{tailnet}/keys/{keyId}") key_delete
    ∷ put (codes "/tailnet/{tailnet}/keys/{keyId}") (not_implemented oauth_keys)
    ∷ get (codes "/tailnet/{tailnet}/users") (simple users)
    ∷ get (codes "/users/{userId}") user
    ∷ post (codes "/users/{userId}/delete") (simple user_delete)
    ∷ post (codes "/users/{userId}/approve") (not_implemented user_saas)
    ∷ post (codes "/users/{userId}/suspend") (not_implemented user_saas)
    ∷ post (codes "/users/{userId}/restore") (not_implemented user_saas)
    ∷ post (codes "/users/{userId}/role") (not_implemented user_saas)
    ∷ get (codes "/tailnet/{tailnet}/acl") policy
    ∷ post (codes "/tailnet/{tailnet}/acl") (simple policy_set)
    ∷ post (codes "/tailnet/{tailnet}/acl/preview") (not_implemented acl_saas)
    ∷ post (codes "/tailnet/{tailnet}/acl/validate") (not_implemented acl_saas)
    ∷ get (codes "/tailnet/{tailnet}/dns/nameservers") (not_implemented dns)
    ∷ post (codes "/tailnet/{tailnet}/dns/nameservers") (not_implemented dns)
    ∷ get (codes "/tailnet/{tailnet}/dns/preferences") (not_implemented dns)
    ∷ post (codes "/tailnet/{tailnet}/dns/preferences") (not_implemented dns)
    ∷ get (codes "/tailnet/{tailnet}/dns/searchpaths") (not_implemented dns)
    ∷ post (codes "/tailnet/{tailnet}/dns/searchpaths") (not_implemented dns)
    ∷ get (codes "/tailnet/{tailnet}/dns/configuration") (not_implemented dns)
    ∷ post (codes "/tailnet/{tailnet}/dns/configuration") (not_implemented dns)
    ∷ get (codes "/tailnet/{tailnet}/dns/split-dns") (not_implemented dns)
    ∷ patch (codes "/tailnet/{tailnet}/dns/split-dns") (not_implemented dns)
    ∷ put (codes "/tailnet/{tailnet}/dns/split-dns") (not_implemented dns)
    ∷ get (codes "/tailnet/{tailnet}/webhooks") (not_implemented webhooks)
    ∷ post (codes "/tailnet/{tailnet}/webhooks") (not_implemented webhooks)
    ∷ get (codes "/tailnet/{tailnet}/webhooks/{endpointId}") (not_implemented webhooks)
    ∷ patch (codes "/tailnet/{tailnet}/webhooks/{endpointId}") (not_implemented webhooks)
    ∷ delete (codes "/tailnet/{tailnet}/webhooks/{endpointId}") (not_implemented webhooks)
    ∷ post (codes "/tailnet/{tailnet}/webhooks/{endpointId}/rotate") (not_implemented webhooks)
    ∷ post (codes "/tailnet/{tailnet}/webhooks/{endpointId}/test") (not_implemented webhooks)
    ∷ get (codes "/tailnet/{tailnet}/logging/{logType}") (not_implemented logging)
    ∷ post (codes "/tailnet/{tailnet}/logging/{logType}") (not_implemented logging)
    ∷ get (codes "/tailnet/{tailnet}/logging/{logType}/stream") (not_implemented logging)
    ∷ get (codes "/tailnet/{tailnet}/contacts") (not_implemented contacts)
    ∷ patch (codes "/tailnet/{tailnet}/contacts/{contactType}") (not_implemented contacts)
    ∷ get (codes "/tailnet/{tailnet}/user-invites") (not_implemented user_invites)
    ∷ post (codes "/tailnet/{tailnet}/user-invites") (not_implemented user_invites)
    ∷ get (codes "/tailnet/{tailnet}/user-invites/{userInviteId}") (not_implemented user_invites)
    ∷ delete (codes "/tailnet/{tailnet}/user-invites/{userInviteId}") (not_implemented user_invites)
    ∷ post (codes "/tailnet/{tailnet}/user-invites/{userInviteId}/resend")
        (not_implemented user_invites)
    ∷ get (codes "/tailnet/{tailnet}/posture/integrations") (not_implemented posture_integ)
    ∷ post (codes "/tailnet/{tailnet}/posture/integrations") (not_implemented posture_integ)
    ∷ get (codes "/tailnet/{tailnet}/posture/integrations/{integrationId}")
        (not_implemented posture_integ)
    ∷ patch (codes "/tailnet/{tailnet}/posture/integrations/{integrationId}")
        (not_implemented posture_integ)
    ∷ delete (codes "/tailnet/{tailnet}/posture/integrations/{integrationId}")
        (not_implemented posture_integ)
    ∷ get (codes "/tailnet/{tailnet}/services") (not_implemented services)
    ∷ put (codes "/tailnet/{tailnet}/services/{serviceId}") (not_implemented services)
    ∷ delete (codes "/tailnet/{tailnet}/services/{serviceId}") (not_implemented services)
    ∷ get (codes "/tailnet/{tailnet}/settings") (not_implemented settings)
    ∷ patch (codes "/tailnet/{tailnet}/settings") (not_implemented settings)
    ∷ []
