-- ===== src/Headscale/MockClient/Answers.antt =====
-- What the return values of an expectation say of a method of `MockHeadscaleClient`.
use headtotails.Prelude.{◌≡◌, refl, ◌↔◌, Option, none, some, List, [], ◌∷◌}
use headtotails.Text.{Text, codes}
use headtotails.Proto.{GrpcError, Outcome}
use headtotails.Headscale.{
  Rpc, list_nodes, get_node, delete_node, expire_node, rename_node, set_tags, set_approved_routes,
  auth_approve, list_pre_auth_keys, create_pre_auth_key, expire_pre_auth_key, delete_pre_auth_key,
  list_users, delete_user, get_policy, set_policy, Reply, Context,
}
use headtotails.Headscale.MockClient
use headtotails.Headscale.MockClient.{
  Args, args, Value, both, gives, fails, holds, an_error, nil, other, Done, returned, panicked,
  Panic, library, and_then, Testify, error_at, with_error, result_of, answer_of, error_of,
  call_result, call_error,
}
use headtotails.Headscale.MockClient.Interface.{
  outcome_of, error_outcome, in_interface, mock_client,
}
use headtotails.Headscale.MockClient.Values.{
  IsAnswerOf, IsFailureOf, IsTestify, error_at-IsErrorOf, answer_of-IsAnswerOf,
}

finished_iff :
    {A B : Type 0} (f : A → B) (P : A → Type 0) (d : Done A) (o : B)
    → ((x : A) → (d ≡ returned x) ↔ P x)
    → (and_then d (λ a. returned (f a)) ≡ returned o) ↔ ((x : A) × P x × (f x ≡ o))
finished_iff f P (returned a) o h = (
  λ e. (a, (h a).0 refl, cc),
  λ (x, p, e). let same : returned a ≡ returned x = (h x).1 p in cc (same, e),
)
finished_iff f P (panicked p) o h =
    (λ e. cc, λ (x, q, e). let same : panicked p ≡ returned x = (h x).1 q in cc)

error_of-IsFailureOf :
    {T M A R : Type 0} (lib : Testify T M) (laws : IsTestify lib) (ctx : Context) (a : A)
    (name : Text) (ret : List (Value A R)) (x : Option GrpcError)
    → (error_of lib ctx a name ret ≡ returned x) ↔ IsFailureOf ctx a ret x
error_of-IsFailureOf lib laws ctx a name [] x = (λ e. cc, λ e. absurd e)
error_of-IsFailureOf lib laws ctx a name (v ∷ vs) x =
    error_at-IsErrorOf lib laws ctx a (v ∷ vs) 0 v (laws.get_first v vs) x

module _ (ctx : Context) where
  -- A method of two results, and one that returns an error alone.
  abbrev Gives :
      (q : Rpc) → Option (Reply q) → List (Value (Args q) (Reply q)) → Outcome (Reply q) → Type 0
  Gives q zero_value ret o =
      (x : Reply q × Option GrpcError) × IsAnswerOf ctx (args q) zero_value ret x
      × (outcome_of x ≡ o)

  abbrev Fails : (q : Rpc) → List (Value (Args q) (Reply q)) → Outcome (Unit {0}) → Type 0
  Fails q ret o = (x : Option GrpcError) × IsFailureOf ctx (args q) ret x × (error_outcome x ≡ o)

  -- What return values say that a method returns. A string has no nil.
  abbrev pub Answers : (q : Rpc) → List (Value (Args q) (Reply q)) → Outcome (Reply q) → Type 0
  Answers (auth_approve user node_key) = Gives (auth_approve user node_key) (some none)
  Answers (create_pre_auth_key req) = Gives (create_pre_auth_key req) (some none)
  Answers (get_node id) = Gives (get_node id) (some none)
  Answers get_policy = Gives get_policy none
  Answers (list_nodes user) = Gives (list_nodes user) (some [])
  Answers (list_pre_auth_keys user) = Gives (list_pre_auth_keys user) (some [])
  Answers list_users = Gives list_users (some [])
  Answers (rename_node id name) = Gives (rename_node id name) (some none)
  Answers (set_approved_routes id routes) = Gives (set_approved_routes id routes) (some none)
  Answers (set_tags id tags) = Gives (set_tags id tags) (some none)
  Answers (delete_node id) = Fails (delete_node id)
  Answers (delete_pre_auth_key id) = Fails (delete_pre_auth_key id)
  Answers (delete_user id) = Fails (delete_user id)
  Answers (expire_node id) = Fails (expire_node id)
  Answers (expire_pre_auth_key id) = Fails (expire_pre_auth_key id)
  Answers (set_policy policy) = Fails (set_policy policy)

module _ {T M : Type 0} (lib : Testify T M) (laws : IsTestify lib) (ctx : Context) (m : M) where
  call_result-Gives :
      (q : Rpc) (name : Text) (zero_value : Option (Reply q))
      (ret : List (Value (Args q) (Reply q))) (o : Outcome (Reply q))
      → (lib.called ctx q m).0 ≡ returned ret
      → ((in_interface outcome_of (call_result lib ctx q name zero_value m)).0 ≡ returned o)
        ↔ Gives ctx q zero_value ret o
  call_result-Gives q name zero_value ret o e = rw e (
      finished_iff outcome_of (IsAnswerOf ctx (args q) zero_value ret)
        (answer_of lib ctx (args q) name zero_value ret) o
        (answer_of-IsAnswerOf lib laws ctx (args q) name zero_value ret))

  call_error-Fails :
      (q : Rpc) (name : Text) (ret : List (Value (Args q) (Reply q))) (o : Outcome (Unit {0}))
      → (lib.called ctx q m).0 ≡ returned ret
      → ((in_interface error_outcome (call_error lib ctx q name m)).0 ≡ returned o)
        ↔ Fails ctx q ret o
  call_error-Fails q name ret o e = rw e (
      finished_iff error_outcome (IsFailureOf ctx (args q) ret) (error_of lib ctx (args q) name ret)
        o (error_of-IsFailureOf lib laws ctx (args q) name ret))

  -- A method of the mock returns a result or an error exactly where the return values of the
  -- expectation that its call meets say so: by a function for both, or by a value or a function for
  -- each; otherwise it panics. Its one effect on the mock is that call.
  pub mock_client-Answers :
      (q : Rpc) (ret : List (Value (Args q) (Reply q))) (o : Outcome (Reply q))
      → (lib.called ctx q m).0 ≡ returned ret
      → (((mock_client lib ctx q m).0 ≡ returned o) ↔ Answers ctx q ret o)
        × ((mock_client lib ctx q m).1 ≡ (lib.called ctx q m).1)
  unfolding mock_client MockClient.auth_approve MockClient.create_pre_auth_key MockClient.get_node
      MockClient.get_policy MockClient.list_nodes MockClient.list_pre_auth_keys
      MockClient.list_users MockClient.rename_node MockClient.set_approved_routes
      MockClient.set_tags MockClient.delete_node MockClient.delete_pre_auth_key
      MockClient.delete_user MockClient.expire_node MockClient.expire_pre_auth_key
      MockClient.set_policy
  mock_client-Answers (auth_approve user node_key) ret o e = (
    call_result-Gives (auth_approve user node_key) (codes "AuthApprove") (some none) ret o e,
    refl,
  )
  mock_client-Answers (create_pre_auth_key req) ret o e = (
    call_result-Gives (create_pre_auth_key req) (codes "CreatePreAuthKey") (some none) ret o e,
    refl,
  )
  mock_client-Answers (get_node id) ret o e =
      (call_result-Gives (get_node id) (codes "GetNode") (some none) ret o e, refl)
  mock_client-Answers get_policy ret o e =
      (call_result-Gives get_policy (codes "GetPolicy") none ret o e, refl)
  mock_client-Answers (list_nodes user) ret o e =
      (call_result-Gives (list_nodes user) (codes "ListNodes") (some []) ret o e, refl)
  mock_client-Answers (list_pre_auth_keys user) ret o e = (
    call_result-Gives (list_pre_auth_keys user) (codes "ListPreAuthKeys") (some []) ret o e,
    refl,
  )
  mock_client-Answers list_users ret o e =
      (call_result-Gives list_users (codes "ListUsers") (some []) ret o e, refl)
  mock_client-Answers (rename_node id name) ret o e =
      (call_result-Gives (rename_node id name) (codes "RenameNode") (some none) ret o e, refl)
  mock_client-Answers (set_approved_routes id routes) ret o e = (
    call_result-Gives (set_approved_routes id routes) (codes "SetApprovedRoutes") (some none) ret o
        e,
    refl,
  )
  mock_client-Answers (set_tags id tags) ret o e =
      (call_result-Gives (set_tags id tags) (codes "SetTags") (some none) ret o e, refl)
  mock_client-Answers (delete_node id) ret o e =
      (call_error-Fails (delete_node id) (codes "DeleteNode") ret o e, refl)
  mock_client-Answers (delete_pre_auth_key id) ret o e =
      (call_error-Fails (delete_pre_auth_key id) (codes "DeletePreAuthKey") ret o e, refl)
  mock_client-Answers (delete_user id) ret o e =
      (call_error-Fails (delete_user id) (codes "DeleteUser") ret o e, refl)
  mock_client-Answers (expire_node id) ret o e =
      (call_error-Fails (expire_node id) (codes "ExpireNode") ret o e, refl)
  mock_client-Answers (expire_pre_auth_key id) ret o e =
      (call_error-Fails (expire_pre_auth_key id) (codes "ExpirePreAuthKey") ret o e, refl)
  mock_client-Answers (set_policy policy) ret o e =
      (call_error-Fails (set_policy policy) (codes "SetPolicy") ret o e, refl)
