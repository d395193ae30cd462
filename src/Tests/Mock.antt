-- ===== src/Tests/Mock.antt =====
-- The mock of the tests on a small `mock.Mock`, whose state counts its calls.
use headtotails.Prelude.{ℕ, zero, suc, ◌≡◌, refl, ◌↔◌, Option, none, some, List, [], ◌∷◌}
use headtotails.Text.{Text, codes}
use headtotails.Proto.{GrpcError, ok}
use headtotails.Headscale.{Rpc, get_node}
use headtotails.Headscale.MockClient.{
  Value, both, gives, fails, holds, an_error, nil, other, Done, returned, panicked, conversion,
  library, Testify, get_policy, new_mock_headscale_client,
}
use headtotails.Headscale.MockClient.Interface.{mock_client}
use headtotails.Headscale.MockClient.Values.{IsNoError, IsTestify}
use headtotails.Headscale.MockClient.Answers.{Answers, mock_client-Answers}

-- `Get`, on the values behind an index.
abbrev nth : {A R : Type 0} → List (Value A R) → ℕ → Done (Value A R)
nth [] i = panicked (library (codes "Get"))
nth (v ∷ vs) zero = returned v
nth (v ∷ vs) (suc i) = nth vs i

abbrev error_in : {A R : Type 0} → Done (Value A R) → Done (Option GrpcError)
error_in (returned nil) = returned none
error_in (returned (an_error e)) = returned (some e)
error_in _ = panicked (library (codes "Error"))

no_error :
    {A R : Type 0} (v : Value A R)
    → IsNoError v
    → (t : Text) × (error_in (returned v) ≡ panicked (library t))
no_error nil h = absurd (h.0 refl)
no_error (an_error e) h = absurd (h.1 e refl)
no_error (both rf) h = (codes "Error", refl)
no_error (gives rf) h = (codes "Error", refl)
no_error (fails rf) h = (codes "Error", refl)
no_error (holds r) h = (codes "Error", refl)
no_error other h = (codes "Error", refl)

-- Each call is answered by nil for both.
abbrev lib : Testify Unit ℕ
lib = record {
  called = λ ctx q m. (returned (nil ∷ nil ∷ []), suc m);
  get = nth;
  error = λ ret i. error_in (nth ret i);
  empty = 0;
  test = λ t m. m;
  assert_expectations = λ m t. t;
}

lib-IsTestify : IsTestify lib
lib-IsTestify = record {
  get_first = λ v vs. refl;
  get_second = λ v u vs. refl;
  get_past = λ v. (codes "Get", refl);
  error_nil = λ ret i g. rw g refl;
  error_some = λ ret i e g. rw g refl;
  error_other = λ ret i v g h. rw g (no_error v h);
}

mock_client-Answers_example :
    (((mock_client lib [] (get_node 7) 0).0 ≡ returned (ok none))
      ↔ Answers [] (get_node 7) (nil ∷ nil ∷ []) (ok none))
    × ((mock_client lib [] (get_node 7) 0).1 ≡ 1)
mock_client-Answers_example =
    mock_client-Answers lib lib-IsTestify [] 0 (get_node 7) (nil ∷ nil ∷ []) (ok none) refl

-- A string is not nil.
no_policy : (mock_client lib [] Rpc.get_policy 0).0 ≡ panicked conversion
unfolding mock_client get_policy
no_policy = refl

made : (new_mock_headscale_client lib tt).mock ≡ 0
unfolding new_mock_headscale_client
made = refl
