-- ===== src/Translate.antt =====
-- internal/translate: from headscale's messages to the types of the Tailscale API. A pointer that
-- may be nil is an `Option`; `now` is what time.Now() returns.
pub mod Expiry
pub mod Users
use headtotails.Prelude.{
  ℕ, zero, suc, ◌≡◌, refl, Bool, true, false, Option, none, some, List, [], ◌∷◌, ℤ, pos, negsuc,
  if◌then◌else◌,
}
use headtotails.Text.{Text, codes, ◌==◌}
use headtotails.Text.Decimal.{format}
use headtotails.Time.{Time, is_zero, seconds, add, rfc3339}
use headtotails.Proto
use headtotails.Proto.{PreAuthKey, Node, CreatePreAuthKeyRequest, node_at, key_at}
use headtotails.Model.{Key, CreateKeyRequest, Device, DeviceRoutes, User}

-- A field that is set only if the timestamp is not nil.
abbrev time_text : Option Time → Text
time_text none = []
time_text (some t) = rfc3339 t

-- key.go
unfoldable pub pre_auth_key_to_key : Option PreAuthKey → Key
pre_auth_key_to_key p =
    let k = key_at p in
    record {
      id = format k.id;
      key = if k.key == [] then [] else k.key;
      description = [];
      created = time_text k.created_at;
      expires = time_text k.expiration;
      revoked = [];
      invalid = k.used;
      capabilities = record {
        devices = record {
          create = record {
            reusable = k.reusable;
            ephemeral = k.ephemeral;
            preauthorized = false;
            tags = k.acl_tags;
          };
        };
      };
    }

-- One hour, if the request names no positive number of seconds.
unfoldable pub expiry_or_default : ℤ → ℕ
expiry_or_default (pos zero) = 3600
expiry_or_default (pos (suc n)) = suc n
expiry_or_default (negsuc n) = 3600

unfoldable pub key_request_to_create_pre_auth_key_request :
    Time → CreateKeyRequest → ℕ → CreatePreAuthKeyRequest
unfolding expiry_or_default
key_request_to_create_pre_auth_key_request now r user_id = record {
  user = user_id;
  reusable = r.capabilities.devices.create.reusable;
  ephemeral = r.capabilities.devices.create.ephemeral;
  expiration = some (add now (seconds (expiry_or_default r.expiry_seconds)));
  acl_tags = r.capabilities.devices.create.tags;
}

-- device.go
abbrev owner_name : Option Proto.User → Text
owner_name none = []
owner_name (some u) = u.name

abbrev expiry_disabled : Option Time → Bool
expiry_disabled none = true
expiry_disabled (some t) = is_zero t

unfoldable pub node_to_device : Option Node → Device
node_to_device p =
    let n = node_at p in
    record {
      id = format n.id;
      addresses = n.ip_addresses;
      name = n.name;
      hostname = n.name;
      client_version = [];
      update_available = false;
      fully_qualified_domain_name = [];
      os = [];
      created = [];
      last_seen = time_text n.last_seen;
      key_expiry_disabled = expiry_disabled n.expiry;
      expires = time_text n.expiry;
      authorized = if n.online then true else true;
      is_external = false;
      machine_key = [];
      node_key = n.node_key;
      user = owner_name n.user;
      tags = n.tags;
      blocks_incoming_connections = false;
    }

unfoldable pub node_to_device_routes : Option Node → DeviceRoutes
node_to_device_routes p =
    let n = node_at p in
    record { advertised_routes = n.available_routes; enabled_routes = n.approved_routes }

-- user.go
unfoldable pub user_to_tailscale_user : Proto.User → User
user_to_tailscale_user u = record {
  id = format u.id;
  display_name = if u.display_name == [] then u.name else u.display_name;
  login_name = u.name;
  profile_pic_url = u.profile_pic_url;
  tailnet_id = [];
  created = time_text u.created_at;
  role = codes "member";
  status = codes "active";
  device_count = 0;
  currently_connected = false;
}

unfoldable pub find_user_by_id : List Proto.User → Text → Option Proto.User
find_user_by_id [] id = none
find_user_by_id (u ∷ users) id = if format u.id == id then some u else find_user_by_id users id
