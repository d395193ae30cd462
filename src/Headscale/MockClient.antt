-- ===== src/Headscale/MockClient.antt =====
-- internal/headscale/mock_client.go: `MockHeadscaleClient`, the client of the tests. Package testify
-- keeps what was expected of the mock and is not part of this repository: it is a parameter, with
-- the state of `mock.Mock` as an `M`.
pub mod Interface
pub mod Values
pub mod Answers
use headtotails.Prelude.{ℕ, Option, none, some, List, [], ◌∷◌, if◌then◌else◌}
use headtotails.Text.{Text, codes}
use headtotails.Proto.{User, PreAuthKey, Node, CreatePreAuthKeyRequest, GrpcError}
use headtotails.Headscale.{Rpc, Reply, Context}

-- What the methods are given behind `ctx`.
abbrev pub Args : Rpc → Type 0
Args (Rpc.list_nodes user) = Text
Args (Rpc.get_node id) = ℕ
Args (Rpc.delete_node id) = ℕ
Args (Rpc.expire_node id) = ℕ
Args (Rpc.rename_node id name) = ℕ × Text
Args (Rpc.set_tags id tags) = ℕ × List Text
Args (Rpc.set_approved_routes id routes) = ℕ × List Text
Args (Rpc.auth_approve user node_key) = Text × Text
Args (Rpc.list_pre_auth_keys user) = Text
Args (Rpc.create_pre_auth_key req) = CreatePreAuthKeyRequest
Args (Rpc.expire_pre_auth_key id) = ℕ
Args (Rpc.delete_pre_auth_key id) = ℕ
Args Rpc.list_users = Unit
Args (Rpc.delete_user id) = ℕ
Args Rpc.get_policy = Unit
Args (Rpc.set_policy policy) = Text

abbrev pub args : (q : Rpc) → Args q
args (Rpc.list_nodes user) = user
args (Rpc.get_node id) = id
args (Rpc.delete_node id) = id
args (Rpc.expire_node id) = id
args (Rpc.rename_node id name) = (id, name)
args (Rpc.set_tags id tags) = (id, tags)
args (Rpc.set_approved_routes id routes) = (id, routes)
args (Rpc.auth_approve user node_key) = (user, node_key)
args (Rpc.list_pre_auth_keys user) = user
args (Rpc.create_pre_auth_key req) = req
args (Rpc.expire_pre_auth_key id) = id
args (Rpc.delete_pre_auth_key id) = id
args Rpc.list_users = tt
args (Rpc.delete_user id) = id
args Rpc.get_policy = tt
args (Rpc.set_policy policy) = policy

-- An `interface{}` among the return values, by the dynamic types that a method with arguments `A`
-- and a result `R` tells apart: the three kinds of function, a value of type `R`, an error, nil.
pub data Value (A R : Type 0) : Type 0 where
  both : (Context → A → R × Option GrpcError) → Value A R
  gives : (Context → A → R) → Value A R
  fails : (Context → A → Option GrpcError) → Value A R
  holds : R → Value A R
  an_error : GrpcError → Value A R
  nil other : Value A R

-- How a call ends: `conversion` is a type assertion that does not hold, `library` a panic of testify.
pub data Panic : Type 0 where
  no_return_value : Text → Panic
  conversion : Panic
  library : Text → Panic

pub data Done (A : Type 0) : Type 0 where
  returned : A → Done A
  panicked : Panic → Done A

abbrev pub and_then : {A B : Type 0} → Done A → (A → Done B) → Done B
and_then (returned a) f = f a
and_then (panicked p) f = panicked p

-- Package testify: `Mock.Called`, `Arguments.Get` and `Arguments.Error`; `Mock.Test` and
-- `Mock.AssertExpectations`, on the test, a `T`.
pub record Testify (T M : Type 0) : Type 1 where
  pub called : Context → (q : Rpc) → M → Done (List (Value (Args q) (Reply q))) × M
  pub get : {A R : Type 0} → List (Value A R) → ℕ → Done (Value A R)
  pub error : {A R : Type 0} → List (Value A R) → ℕ → Done (Option GrpcError)
  pub empty : M
  pub test : T → M → M
  pub assert_expectations : M → T → T

module _ {T M A R : Type 0} (lib : Testify T M) (ctx : Context) (a : A) where
  -- `r1`, or `r0` where a method returns an error alone.
  abbrev pub error_at : List (Value A R) → ℕ → Done (Option GrpcError)
  error_at ret i =
      and_then (lib.get ret i)
        (λ x. elim x [ fails rf ↦ returned (rf ctx a) | _ ↦ lib.error ret i ])

  abbrev pub with_error : List (Value A R) → R → Done (R × Option GrpcError)
  with_error ret r0 = and_then (error_at ret 1) (λ r1. returned (r0, r1))

  -- `r0`, and `r1` after it; where the first value is a function for both, its results. The zero
  -- value of `r0` stands for nil, where the type of `r0` has one.
  abbrev pub result_of : Option R → List (Value A R) → Value A R → Done (R × Option GrpcError)
  result_of zero_value ret (both rf) = returned (rf ctx a)
  result_of zero_value ret (gives rf) = with_error ret (rf ctx a)
  result_of zero_value ret (holds r0) = with_error ret r0
  result_of (some r0) ret nil = with_error ret r0
  result_of _ ret _ = panicked conversion

  -- `if len(ret) == 0 { panic(…) }`, and the rest of a method.
  abbrev pub answer_of : Text → Option R → List (Value A R) → Done (R × Option GrpcError)
  answer_of name zero_value [] = panicked (no_return_value name)
  answer_of name zero_value (v ∷ vs) = and_then (lib.get (v ∷ vs) 0) (result_of zero_value (v ∷ vs))

  abbrev pub error_of : Text → List (Value A R) → Done (Option GrpcError)
  error_of name [] = panicked (no_return_value name)
  error_of name (v ∷ vs) = error_at (v ∷ vs) 0

module _ {T M : Type 0} (lib : Testify T M) (ctx : Context) where
  -- A method that returns a value and an error, and one that returns an error.
  abbrev pub call_result :
      (q : Rpc) → Text → Option (Reply q) → M → Done (Reply q × Option GrpcError) × M
  call_result q name zero_value m =
      let (ret, m') = lib.called ctx q m in
      (and_then ret (answer_of lib ctx (args q) name zero_value), m')

  abbrev pub call_error : (q : Rpc) → Text → M → Done (Option GrpcError) × M
  call_error q name m =
      let (ret, m') = lib.called ctx q m in (and_then ret (error_of lib ctx (args q) name), m')

  unfoldable pub auth_approve : Text → Text → M → Done (Option Node × Option GrpcError) × M
  auth_approve user node_key =
      call_result (Rpc.auth_approve user node_key) (codes "AuthApprove") (some none)

  unfoldable pub create_pre_auth_key :
      CreatePreAuthKeyRequest → M → Done (Option PreAuthKey × Option GrpcError) × M
  create_pre_auth_key req =
      call_result (Rpc.create_pre_auth_key req) (codes "CreatePreAuthKey") (some none)

  unfoldable pub delete_node : ℕ → M → Done (Option GrpcError) × M
  delete_node id = call_error (Rpc.delete_node id) (codes "DeleteNode")

  unfoldable pub delete_pre_auth_key : ℕ → M → Done (Option GrpcError) × M
  delete_pre_auth_key id = call_error (Rpc.delete_pre_auth_key id) (codes "DeletePreAuthKey")

  unfoldable pub delete_user : ℕ → M → Done (Option GrpcError) × M
  delete_user id = call_error (Rpc.delete_user id) (codes "DeleteUser")

  unfoldable pub expire_node : ℕ → M → Done (Option GrpcError) × M
  expire_node id = call_error (Rpc.expire_node id) (codes "ExpireNode")

  unfoldable pub expire_pre_auth_key : ℕ → M → Done (Option GrpcError) × M
  expire_pre_auth_key id = call_error (Rpc.expire_pre_auth_key id) (codes "ExpirePreAuthKey")

  unfoldable pub get_node : ℕ → M → Done (Option Node × Option GrpcError) × M
  get_node id = call_result (Rpc.get_node id) (codes "GetNode") (some none)

  -- A string has no nil.
  unfoldable pub get_policy : M → Done (Text × Option GrpcError) × M
  get_policy = call_result Rpc.get_policy (codes "GetPolicy") none

  unfoldable pub list_nodes : Text → M → Done (List Node × Option GrpcError) × M
  list_nodes user = call_result (Rpc.list_nodes user) (codes "ListNodes") (some [])

  unfoldable pub list_pre_auth_keys : Text → M → Done (List PreAuthKey × Option GrpcError) × M
  list_pre_auth_keys user =
      call_result (Rpc.list_pre_auth_keys user) (codes "ListPreAuthKeys") (some [])

  unfoldable pub list_users : M → Done (List User × Option GrpcError) × M
  list_users = call_result Rpc.list_users (codes "ListUsers") (some [])

  unfoldable pub rename_node : ℕ → Text → M → Done (Option Node × Option GrpcError) × M
  rename_node id name = call_result (Rpc.rename_node id name) (codes "RenameNode") (some none)

  unfoldable pub set_approved_routes : ℕ → List Text → M → Done (Option Node × Option GrpcError) × M
  set_approved_routes id routes =
      call_result (Rpc.set_approved_routes id routes) (codes "SetApprovedRoutes") (some none)

  unfoldable pub set_policy : Text → M → Done (Option GrpcError) × M
  set_policy policy = call_error (Rpc.set_policy policy) (codes "SetPolicy")

  unfoldable pub set_tags : ℕ → List Text → M → Done (Option Node × Option GrpcError) × M
  set_tags id tags = call_result (Rpc.set_tags id tags) (codes "SetTags") (some none)

-- `NewMockHeadscaleClient`: the mock, and what it has registered to run when the test is over, on
-- the mock as it is then.
pub record NewMock (T M : Type 0) : Type 0 where
  pub mock : M
  pub cleanup : M → T → T

unfoldable pub new_mock_headscale_client : {T M : Type 0} → Testify T M → T → NewMock T M
new_mock_headscale_client lib t = record {
  mock = lib.test t lib.empty;
  cleanup = lib.assert_expectations;
}
