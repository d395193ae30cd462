-- ===== src/Headscale.antt =====
-- internal/headscale/client.go: the interface `HeadscaleClient` that every handler receives, and
-- below this module its implementation over gRPC. A call is a value, so that a model of the
-- service is one function and the calls that a handler makes can be recorded.
pub mod Service
pub mod Client
pub mod MockClient
use headtotails.Prelude.{ℕ, List, Option}
use headtotails.Text.{Text}
use headtotails.Proto.{User, PreAuthKey, Node, CreatePreAuthKeyRequest, Outcome}

-- The methods of the interface, with their arguments behind `ctx`.
pub data Rpc : Type 0 where
  list_nodes : Text → Rpc
  get_node delete_node expire_node : ℕ → Rpc
  rename_node : ℕ → Text → Rpc
  set_tags set_approved_routes : ℕ → List Text → Rpc
  auth_approve : Text → Text → Rpc
  list_pre_auth_keys : Text → Rpc
  create_pre_auth_key : CreatePreAuthKeyRequest → Rpc
  expire_pre_auth_key delete_pre_auth_key : ℕ → Rpc
  list_users : Rpc
  delete_user : ℕ → Rpc
  get_policy : Rpc
  set_policy : Text → Rpc

-- What a method returns beside its error.
abbrev pub Reply : Rpc → Type 0
Reply (list_nodes user) = List Node
Reply (get_node id) = Option Node
Reply (delete_node id) = Unit
Reply (expire_node id) = Unit
Reply (rename_node id name) = Option Node
Reply (set_tags id tags) = Option Node
Reply (set_approved_routes id routes) = Option Node
Reply (auth_approve user node_key) = Option Node
Reply (list_pre_auth_keys user) = List PreAuthKey
Reply (create_pre_auth_key req) = Option PreAuthKey
Reply (expire_pre_auth_key id) = Unit
Reply (delete_pre_auth_key id) = Unit
Reply list_users = List User
Reply (delete_user id) = Unit
Reply get_policy = Text
Reply (set_policy policy) = Unit

-- The outgoing metadata of a context, the part of it that the client adds to.
abbrev pub Context : Type 0
Context = List (Text × Text)

-- A client over a service whose state is an `S`.
abbrev pub HeadscaleClient : Type 0 → Type 0
HeadscaleClient S = Context → (q : Rpc) → S → Outcome (Reply q) × S
