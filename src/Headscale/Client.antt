-- ===== src/Headscale/Client.antt =====
-- `GRPCClient`: each method of the interface is one call of the service of package v1, with the
-- API key in the metadata. The service is not part of this repository: it is a parameter.
pub mod Laws
use headtotails.Prelude.{
  ℕ, Bool, true, false, ◌&&◌, Option, none, some, List, [], ◌∷◌, ◌++◌, if◌then◌else◌,
}
use headtotails.Text.{Text, codes, ◌==◌}
use headtotails.Proto.{User, PreAuthKey, Node, CreatePreAuthKeyRequest, Outcome, ok, err}
use headtotails.Headscale.Service.{ServiceCall, Service}
use headtotails.Headscale.{
  Rpc, list_nodes, get_node, delete_node, expire_node, rename_node, set_tags, set_approved_routes,
  auth_approve, list_pre_auth_keys, create_pre_auth_key, expire_pre_auth_key, delete_pre_auth_key,
  list_users, delete_user, get_policy, set_policy, Reply, Context, HeadscaleClient,
}

pub record GrpcClient : Type 0 where
  pub api_key : Text

-- What `grpc.NewClient` returns for an address: a connection, or the text of an error.
pub data Dialled (K : Type 0) : Type 0 where
  connection : K → Dialled K
  dial_failed : Text → Dialled K

-- `New`: the client with its connection, or the text of the error.
pub data Connecting (K : Type 0) : Type 0 where
  connected : K → GrpcClient → Connecting K
  refused : Text → Connecting K

unfoldable pub new_grpc_client : {K : Type 0} → (Text → Dialled K) → Text → Text → Connecting K
new_grpc_client dial addr api_key = elim (dial addr) [
  | connection conn ↦ connected conn (record { api_key = api_key })
  | dial_failed e ↦ refused (codes "dial headscale gRPC at " ++ addr ++ codes ": " ++ e)
]

-- `AppendToOutgoingContext(ctx, "authorization", "Bearer "+c.apiKey)`.
abbrev pub with_api_key : GrpcClient → Context → Context
with_api_key c ctx = ctx ++ (codes "authorization", codes "Bearer " ++ c.api_key) ∷ []

-- `key.GetUser() != nil && key.GetUser().GetName() == user`.
abbrev pub owned_by : Text → PreAuthKey → Bool
owned_by user key = elim key.user [ none ↦ false | some u ↦ u.name == user ]

-- The loop of `ListPreAuthKeys`.
unfoldable pub filter_keys : Text → List PreAuthKey → List PreAuthKey
filter_keys user [] = []
filter_keys user (key ∷ keys) =
    if owned_by user key then key ∷ filter_keys user keys else filter_keys user keys

-- What `ListPreAuthKeys` makes of the service's answer.
unfoldable pub keys_for : Text → Outcome (List PreAuthKey) → Outcome (List PreAuthKey)
keys_for user (err e) = err e
keys_for user (ok keys) = ok (if user == [] then keys else filter_keys user keys)

module _ {S : Type 0} (svc : Service S) (c : GrpcClient) where
  unfoldable pub grpc_client : HeadscaleClient S
  unfolding keys_for
  grpc_client ctx (list_nodes user) s = svc (with_api_key c ctx) (ServiceCall.list_nodes user) s
  grpc_client ctx (get_node id) s = svc (with_api_key c ctx) (ServiceCall.get_node id) s
  grpc_client ctx (delete_node id) s = svc (with_api_key c ctx) (ServiceCall.delete_node id) s
  grpc_client ctx (expire_node id) s = svc (with_api_key c ctx) (ServiceCall.expire_node id) s
  grpc_client ctx (rename_node id name) s =
      svc (with_api_key c ctx) (ServiceCall.rename_node id name) s
  grpc_client ctx (set_tags id tags) s = svc (with_api_key c ctx) (ServiceCall.set_tags id tags) s
  grpc_client ctx (set_approved_routes id routes) s =
      svc (with_api_key c ctx) (ServiceCall.set_approved_routes id routes) s
  grpc_client ctx (auth_approve user node_key) s =
      svc (with_api_key c ctx) (ServiceCall.register_node user node_key) s
  grpc_client ctx (list_pre_auth_keys user) s =
      let (resp, s') = svc (with_api_key c ctx) ServiceCall.list_pre_auth_keys s in
      (keys_for user resp, s')
  grpc_client ctx (create_pre_auth_key req) s =
      svc (with_api_key c ctx) (ServiceCall.create_pre_auth_key req) s
  grpc_client ctx (expire_pre_auth_key id) s =
      svc (with_api_key c ctx) (ServiceCall.expire_pre_auth_key id) s
  grpc_client ctx (delete_pre_auth_key id) s =
      svc (with_api_key c ctx) (ServiceCall.delete_pre_auth_key id) s
  grpc_client ctx list_users s = svc (with_api_key c ctx) ServiceCall.list_users s
  grpc_client ctx (delete_user id) s = svc (with_api_key c ctx) (ServiceCall.delete_user id) s
  grpc_client ctx get_policy s = svc (with_api_key c ctx) ServiceCall.get_policy s
  grpc_client ctx (set_policy policy) s = svc (with_api_key c ctx) (ServiceCall.set_policy policy) s
