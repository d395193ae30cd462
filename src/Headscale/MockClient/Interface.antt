-- ===== src/Headscale/MockClient/Interface.antt =====
-- `MockHeadscaleClient` as a `HeadscaleClient`: its methods on what was expected of the mock.
use headtotails.Prelude.{Option, none, some}
use headtotails.Proto.{GrpcError, Outcome, ok, err}
use headtotails.Headscale.{
  Rpc, list_nodes, get_node, delete_node, expire_node, rename_node, set_tags, set_approved_routes,
  auth_approve, list_pre_auth_keys, create_pre_auth_key, expire_pre_auth_key, delete_pre_auth_key,
  list_users, delete_user, get_policy, set_policy, Reply, Context,
}
use headtotails.Headscale.MockClient
use headtotails.Headscale.MockClient.{
  Args, args, Value, both, gives, fails, holds, an_error, nil, other, Done, returned, panicked,
  Panic, library, and_then, Testify, error_at, with_error, result_of, answer_of, error_of,
}

-- The results of a method as the interface has them: a value is not read beside an error.
abbrev pub outcome_of : {R : Type 0} → R × Option GrpcError → Outcome R
outcome_of (r0, none) = ok r0
outcome_of (r0, some e) = err e

abbrev pub error_outcome : Option GrpcError → Outcome (Unit {0})
error_outcome r0 = outcome_of (tt, r0)

abbrev pub in_interface : {A B M : Type 0} → (A → B) → Done A × M → Done B × M
in_interface f (x, m) = (and_then x (λ a. returned (f a)), m)

module _ {T M : Type 0} (lib : Testify T M) (ctx : Context) where
  -- Each method of the interface is the mock's method of that name.
  unfoldable pub mock_client : (q : Rpc) → M → Done (Outcome (Reply q)) × M
  mock_client (auth_approve user node_key) m =
      in_interface outcome_of (MockClient.auth_approve lib ctx user node_key m)
  mock_client (create_pre_auth_key req) m =
      in_interface outcome_of (MockClient.create_pre_auth_key lib ctx req m)
  mock_client (get_node id) m = in_interface outcome_of (MockClient.get_node lib ctx id m)
  mock_client get_policy m = in_interface outcome_of (MockClient.get_policy lib ctx m)
  mock_client (list_nodes user) m = in_interface outcome_of (MockClient.list_nodes lib ctx user m)
  mock_client (list_pre_auth_keys user) m =
      in_interface outcome_of (MockClient.list_pre_auth_keys lib ctx user m)
  mock_client list_users m = in_interface outcome_of (MockClient.list_users lib ctx m)
  mock_client (rename_node id name) m =
      in_interface outcome_of (MockClient.rename_node lib ctx id name m)
  mock_client (set_approved_routes id routes) m =
      in_interface outcome_of (MockClient.set_approved_routes lib ctx id routes m)
  mock_client (set_tags id tags) m = in_interface outcome_of (MockClient.set_tags lib ctx id tags m)
  mock_client (delete_node id) m = in_interface error_outcome (MockClient.delete_node lib ctx id m)
  mock_client (delete_pre_auth_key id) m =
      in_interface error_outcome (MockClient.delete_pre_auth_key lib ctx id m)
  mock_client (delete_user id) m = in_interface error_outcome (MockClient.delete_user lib ctx id m)
  mock_client (expire_node id) m = in_interface error_outcome (MockClient.expire_node lib ctx id m)
  mock_client (expire_pre_auth_key id) m =
      in_interface error_outcome (MockClient.expire_pre_auth_key lib ctx id m)
  mock_client (set_policy policy) m =
      in_interface error_outcome (MockClient.set_policy lib ctx policy m)
