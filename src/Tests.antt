-- ===== src/Tests.antt =====
-- A small tailnet on which the theorems are tried: two users, a key of each, and one device.
mod Keys
mod Tokens
mod Federation
mod Settings
mod Routing
mod Tenancy
mod Process
mod Mock
mod Repository
use headtotails.Prelude.{ℕ, zero, suc, Bool, true, false, Option, none, some, List, [], ◌∷◌, pos}
use headtotails.Text.{Text, codes}
use headtotails.Model.{
  CreateKeyRequest, DeviceAuthorizeRequest, DeviceNameRequest, DeviceTagsRequest,
  DeviceRoutesRequest,
}
use headtotails.Proto.{User, PreAuthKey, Node, node_at, ok, err, not_found}
use headtotails.Headscale.{HeadscaleClient}
use headtotails.Headscale.Service.{ServiceCall, Service}
use headtotails.Headscale.Client.{GrpcClient, grpc_client}
use headtotails.Api.Http.{Request, JsonDecoder}
use headtotails.Api.Handler.{World}

abbrev pub user : ℕ → Text → User
user id name = record {
  id = id;
  name = name;
  display_name = [];
  profile_pic_url = [];
  created_at = none;
}

abbrev pub alice : User
alice = user 1 (codes "alice")

abbrev pub bob : User
bob = user 2 (codes "bob")

abbrev pub key_of : User → ℕ → PreAuthKey
key_of u id = record {
  user = some u;
  id = id;
  key = codes "secret";
  reusable = false;
  ephemeral = false;
  used = false;
  expiration = none;
  created_at = none;
  acl_tags = [];
}

abbrev pub tailnet_keys : List PreAuthKey
tailnet_keys = key_of alice 7 ∷ key_of bob 8 ∷ []

-- The service keeps the policy as its state, and has no device 0.
abbrev pub tailnet : Service Text
tailnet ctx (ServiceCall.list_nodes u) s = (ok (node_at none ∷ []), s)
tailnet ctx (ServiceCall.get_node zero) s =
    (err (record { code = not_found; text = codes "no node" }), s)
tailnet ctx (ServiceCall.get_node (suc id)) s = (ok (some (node_at none)), s)
tailnet ctx (ServiceCall.delete_node id) s = (ok tt, s)
tailnet ctx (ServiceCall.expire_node id) s = (ok tt, s)
tailnet ctx (ServiceCall.rename_node id name) s = (ok none, s)
tailnet ctx (ServiceCall.set_tags id tags) s = (ok none, s)
tailnet ctx (ServiceCall.set_approved_routes id routes) s = (ok none, s)
tailnet ctx (ServiceCall.register_node u key) s = (ok none, s)
tailnet ctx ServiceCall.list_pre_auth_keys s = (ok tailnet_keys, s)
tailnet ctx (ServiceCall.create_pre_auth_key req) s = (ok (some (key_of alice 9)), s)
tailnet ctx (ServiceCall.expire_pre_auth_key id) s = (ok tt, s)
tailnet ctx (ServiceCall.delete_pre_auth_key id) s = (ok tt, s)
tailnet ctx ServiceCall.list_users s = (ok (alice ∷ bob ∷ []), s)
tailnet ctx (ServiceCall.delete_user id) s = (ok tt, s)
tailnet ctx ServiceCall.get_policy s = (ok s, s)
tailnet ctx (ServiceCall.set_policy policy) s = (ok tt, policy)

abbrev pub conn : GrpcClient
conn = record { api_key = codes "hs-key" }

abbrev pub client : HeadscaleClient Text
client = grpc_client tailnet conn

abbrev pub world : World Text
world = record { upstream = codes "{}"; calls = []; grpc_errors = []; log = [] }

abbrev pub request : Request
request = record {
  method = codes "DELETE";
  route = codes "/api/v2/tailnet/{tailnet}/keys/{keyId}";
  request_id = codes "r1";
  authorization = codes "Bearer abc";
  accept = codes "application/hujson";
  basic_auth = some (codes "id", codes "pw");
  form_error = false;
  form = (codes "grant_type", codes "client_credentials") ∷ (codes "jwt", codes "h.p.s") ∷ [];
  params =
      (codes "tailnet", codes "-")
      ∷ (codes "keyId", codes "7")
      ∷ (codes "deviceId", codes "5")
      ∷ (codes "userId", codes "2")
      ∷ [];
  body = some (codes "{\"acls\":[]}");
}

-- A reusable key for a web server, for two minutes.
abbrev pub key_request : CreateKeyRequest
key_request = record {
  capabilities = record {
    devices = record {
      create = record {
        reusable = true;
        ephemeral = false;
        preauthorized = true;
        tags = codes "tag:web" ∷ [];
      };
    };
  };
  expiry_seconds = pos 120;
  description = codes "web";
}

abbrev pub decoder : JsonDecoder
decoder = record {
  create_key = λ r. some key_request;
  device_authorize = λ r. some (record { authorized = true });
  device_name = λ r. some (record { name = codes "laptop" });
  device_tags = λ r. some (record { tags = codes "tag:web" ∷ [] });
  device_routes = λ r. none;
}
