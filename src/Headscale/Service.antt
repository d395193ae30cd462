-- ===== src/Headscale/Service.antt =====
-- The service that `GRPCClient` calls, of headscale's generated package v1, which is not part of
-- this repository: its methods as values, and what they return. Its behaviour is a parameter.
use headtotails.Prelude.{ℕ, Option, List}
use headtotails.Text.{Text}
use headtotails.Proto.{User, PreAuthKey, Node, CreatePreAuthKeyRequest, Outcome}
use headtotails.Headscale.{Context}

-- The methods of `v1.HeadscaleServiceClient` with the fields of their requests, and what the
-- source reads of a response.
pub data ServiceCall : Type 0 where
  list_nodes : Text → ServiceCall
  get_node delete_node expire_node : ℕ → ServiceCall
  rename_node : ℕ → Text → ServiceCall
  set_tags set_approved_routes : ℕ → List Text → ServiceCall
  register_node : Text → Text → ServiceCall
  list_pre_auth_keys : ServiceCall
  create_pre_auth_key : CreatePreAuthKeyRequest → ServiceCall
  expire_pre_auth_key delete_pre_auth_key : ℕ → ServiceCall
  list_users : ServiceCall
  delete_user : ℕ → ServiceCall
  get_policy : ServiceCall
  set_policy : Text → ServiceCall

abbrev pub ServiceReply : ServiceCall → Type 0
ServiceReply (ServiceCall.list_nodes user) = List Node
ServiceReply (ServiceCall.get_node id) = Option Node
ServiceReply (ServiceCall.delete_node id) = Unit
ServiceReply (ServiceCall.expire_node id) = Unit
ServiceReply (ServiceCall.rename_node id name) = Option Node
ServiceReply (ServiceCall.set_tags id tags) = Option Node
ServiceReply (ServiceCall.set_approved_routes id routes) = Option Node
ServiceReply (ServiceCall.register_node user key) = Option Node
ServiceReply ServiceCall.list_pre_auth_keys = List PreAuthKey
ServiceReply (ServiceCall.create_pre_auth_key req) = Option PreAuthKey
ServiceReply (ServiceCall.expire_pre_auth_key id) = Unit
ServiceReply (ServiceCall.delete_pre_auth_key id) = Unit
ServiceReply ServiceCall.list_users = List User
ServiceReply (ServiceCall.delete_user id) = Unit
ServiceReply ServiceCall.get_policy = Text
ServiceReply (ServiceCall.set_policy policy) = Unit

abbrev pub Service : Type 0 → Type 0
Service S = Context → (q : ServiceCall) → S → Outcome (ServiceReply q) × S
