-- ===== src/Proto.antt =====
-- The messages of headscale's generated package v1 and the status codes of gRPC, which are not
-- part of this repository: the fields that the source reads, under the names of their getters. A
-- pointer to a message is an `Option`; timestamps are instants of Time.
use headtotails.Prelude.{ℕ, Bool, false, List, [], Option, none, some}
use headtotails.Text.{Text}
use headtotails.Time.{Time}

pub record User : Type 0 where
  pub id : ℕ
  pub name : Text
  pub display_name : Text
  pub profile_pic_url : Text
  pub created_at : Option Time

pub record PreAuthKey : Type 0 where
  pub user : Option User
  pub id : ℕ
  pub key : Text
  pub reusable : Bool
  pub ephemeral : Bool
  pub used : Bool
  pub expiration : Option Time
  pub created_at : Option Time
  pub acl_tags : List Text

pub record Node : Type 0 where
  pub id : ℕ
  pub name : Text
  pub ip_addresses : List Text
  pub node_key : Text
  pub user : Option User
  pub last_seen : Option Time
  pub expiry : Option Time
  pub online : Bool
  pub tags : List Text
  pub available_routes : List Text
  pub approved_routes : List Text

pub record CreatePreAuthKeyRequest : Type 0 where
  pub user : ℕ
  pub reusable : Bool
  pub ephemeral : Bool
  pub expiration : Option Time
  pub acl_tags : List Text

-- The getters of a nil message return the zero values.
abbrev pub node_at : Option Node → Node
node_at (some n) = n
node_at none = record {
  id = 0;
  name = [];
  ip_addresses = [];
  node_key = [];
  user = none;
  last_seen = none;
  expiry = none;
  online = false;
  tags = [];
  available_routes = [];
  approved_routes = [];
}

abbrev pub key_at : Option PreAuthKey → PreAuthKey
key_at (some k) = k
key_at none = record {
  user = none;
  id = 0;
  key = [];
  reusable = false;
  ephemeral = false;
  used = false;
  expiration = none;
  created_at = none;
  acl_tags = [];
}

pub data Code : Type 0 where
  ok_code canceled unknown invalid_argument deadline_exceeded not_found already_exists : Code
  permission_denied resource_exhausted failed_precondition aborted out_of_range : Code
  unimplemented internal unavailable data_loss unauthenticated : Code

-- An error of an RPC: `status.Code(err)`, which is `unknown` for an error that is no gRPC status,
-- and `err.Error()`.
pub record GrpcError : Type 0 where
  pub code : Code
  pub text : Text

pub data Outcome {ℓ} (A : Type ℓ) : Type ℓ where
  ok : A → Outcome A
  err : GrpcError → Outcome A
