-- ===== src/Model.antt =====
-- The JSON types of the Tailscale API: internal/model. A nil slice and an empty one are one list.
use headtotails.Prelude.{ℕ, ℤ, Bool, List}
use headtotails.Text.{Text}

-- key.go
pub record KeyCapabilityDevicesCreate : Type 0 where
  pub reusable : Bool
  pub ephemeral : Bool
  pub preauthorized : Bool
  pub tags : List Text

pub record KeyCapabilityDevices : Type 0 where
  pub create : KeyCapabilityDevicesCreate

pub record KeyCapability : Type 0 where
  pub devices : KeyCapabilityDevices

pub record Key : Type 0 where
  pub id : Text
  pub key : Text
  pub description : Text
  pub created : Text
  pub expires : Text
  pub revoked : Text
  pub invalid : Bool
  pub capabilities : KeyCapability

pub record KeyList : Type 0 where
  pub keys : List Key

pub record CreateKeyRequest : Type 0 where
  pub capabilities : KeyCapability
  pub expiry_seconds : ℤ
  pub description : Text

-- device.go
pub record Device : Type 0 where
  pub id : Text
  pub addresses : List Text
  pub name : Text
  pub hostname : Text
  pub client_version : Text
  pub update_available : Bool
  pub fully_qualified_domain_name : Text
  pub os : Text
  pub created : Text
  pub last_seen : Text
  pub key_expiry_disabled : Bool
  pub expires : Text
  pub authorized : Bool
  pub is_external : Bool
  pub machine_key : Text
  pub node_key : Text
  pub user : Text
  pub tags : List Text
  pub blocks_incoming_connections : Bool

pub record DeviceList : Type 0 where
  pub devices : List Device

pub record DeviceRoutes : Type 0 where
  pub advertised_routes : List Text
  pub enabled_routes : List Text

pub record DeviceRoutesRequest : Type 0 where
  pub routes : List Text

pub record DeviceTagsRequest : Type 0 where
  pub tags : List Text

pub record DeviceNameRequest : Type 0 where
  pub name : Text

pub record DeviceAuthorizeRequest : Type 0 where
  pub authorized : Bool

-- user.go
pub record User : Type 0 where
  pub id : Text
  pub display_name : Text
  pub login_name : Text
  pub profile_pic_url : Text
  pub tailnet_id : Text
  pub created : Text
  pub role : Text
  pub status : Text
  pub device_count : ℕ
  pub currently_connected : Bool

pub record UserList : Type 0 where
  pub users : List User

-- error.go
pub record Error : Type 0 where
  pub message : Text
