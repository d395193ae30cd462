-- ===== src/Headscale/MockClient/Values.antt =====
-- Return values as a method of `MockHeadscaleClient` reads them, and what it relies on in testify.
use headtotails.Prelude.{ℕ, ◌≡◌, ◌≢◌, ◌↔◌, Option, none, some, List, [], ◌∷◌}
use headtotails.Text.{Text}
use headtotails.Proto.{GrpcError}
use headtotails.Headscale.{Context}
use headtotails.Headscale.MockClient.{
  Value, both, gives, fails, holds, an_error, nil, other, Done, returned, panicked, library,
  and_then, Testify, error_at, with_error, answer_of,
}

-- What a second value says of the error: the result of a function, nil for none, or an error.
module _ {A R : Type 0} (ctx : Context) (a : A) where
  abbrev pub IsErrorOf : Value A R → Option GrpcError → Type 0
  IsErrorOf (fails rf) x = rf ctx a ≡ x
  IsErrorOf nil x = none ≡ x
  IsErrorOf (an_error e) x = some e ≡ x
  IsErrorOf _ x = ⊥

  -- What a first value says of the result, where `zero_value` is the nil of its type.
  abbrev pub IsResultOf : Option R → Value A R → R → Type 0
  IsResultOf zero_value (gives rf) x = rf ctx a ≡ x
  IsResultOf zero_value (holds r) x = r ≡ x
  IsResultOf zero_value nil x = zero_value ≡ some x
  IsResultOf zero_value _ x = ⊥

  -- What the return values of an expectation say that a method returns: a function for both, or a
  -- result and an error apart.
  abbrev pub IsAnswerOf : Option R → List (Value A R) → R × Option GrpcError → Type 0
  IsAnswerOf zero_value [] x = ⊥
  IsAnswerOf zero_value (both rf ∷ vs) x = rf ctx a ≡ x
  IsAnswerOf zero_value (v ∷ []) x = ⊥
  IsAnswerOf zero_value (v ∷ u ∷ vs) x = IsResultOf zero_value v x.0 × IsErrorOf u x.1

  abbrev pub IsFailureOf : List (Value A R) → Option GrpcError → Type 0
  IsFailureOf [] x = ⊥
  IsFailureOf (v ∷ vs) x = IsErrorOf v x

-- What testify documents of `Arguments`: `Get` is the value at an index and panics past the end,
-- `Error` is the error at an index, or none for nil, and panics on any other value.
abbrev pub IsNoError : {A R : Type 0} → Value A R → Type 0
IsNoError v = (v ≢ nil) × ((e : GrpcError) → v ≢ an_error e)

pub record IsTestify {T M : Type 0} (lib : Testify T M) : Type 1 where
  pub get_first :
      {A R : Type 0} (v : Value A R) (vs : List (Value A R)) → lib.get (v ∷ vs) 0 ≡ returned v
  pub get_second :
      {A R : Type 0} (v u : Value A R) (vs : List (Value A R)) → lib.get (v ∷ u ∷ vs) 1 ≡ returned u
  pub get_past :
      {A R : Type 0} (v : Value A R) → (t : Text) × (lib.get (v ∷ []) 1 ≡ panicked (library t))
  pub error_nil :
      {A R : Type 0} (ret : List (Value A R)) (i : ℕ)
      → lib.get ret i ≡ returned nil
      → lib.error ret i ≡ returned none
  pub error_some :
      {A R : Type 0} (ret : List (Value A R)) (i : ℕ) (e : GrpcError)
      → lib.get ret i ≡ returned (an_error e)
      → lib.error ret i ≡ returned (some e)
  pub error_other :
      {A R : Type 0} (ret : List (Value A R)) (i : ℕ) (v : Value A R)
      → lib.get ret i ≡ returned v
      → IsNoError v
      → (t : Text) × (lib.error ret i ≡ panicked (library t))

paired_iff :
    {R E : Type 0} (P : E → Type 0) (d : Done E) (r0 : R) (x : R × E)
    → ((y : E) → (d ≡ returned y) ↔ P y)
    → (and_then d (λ r1. returned (r0, r1)) ≡ returned x) ↔ ((r0 ≡ x.0) × P x.1)
paired_iff P (returned r1) r0 (x0, x1) h = (
  λ e. (cc, (h x1).0 cc),
  λ e. let same : returned r1 ≡ returned x1 = (h x1).1 e.1 in cc (e.0, same),
)
paired_iff P (panicked p) r0 (x0, x1) h =
    (λ e. cc, λ e. let same : panicked p ≡ returned x1 = (h x1).1 e.1 in cc)

module _ {T M A R : Type 0} (lib : Testify T M) (laws : IsTestify lib) (ctx : Context) (a : A) where
  pub error_at-IsErrorOf :
      (ret : List (Value A R)) (i : ℕ) (v : Value A R)
      → lib.get ret i ≡ returned v
      → (x : Option GrpcError) → (error_at lib ctx a ret i ≡ returned x) ↔ IsErrorOf ctx a v x
  error_at-IsErrorOf ret i (fails rf) g x = rw g (λ e. cc, λ e. cc)
  error_at-IsErrorOf ret i nil g x = rw (g, laws.error_nil ret i g) (λ e. cc, λ e. cc)
  error_at-IsErrorOf ret i (an_error r) g x = rw (g, laws.error_some ret i r g) (λ e. cc, λ e. cc)
  error_at-IsErrorOf ret i (both rf) g x =
      rw (g, (laws.error_other ret i (both rf) g (λ h. cc, λ e h. cc)).1) (λ e. cc, λ e. absurd e)
  error_at-IsErrorOf ret i (gives rf) g x =
      rw (g, (laws.error_other ret i (gives rf) g (λ h. cc, λ e h. cc)).1) (λ e. cc, λ e. absurd e)
  error_at-IsErrorOf ret i (holds r) g x =
      rw (g, (laws.error_other ret i (holds r) g (λ h. cc, λ e h. cc)).1) (λ e. cc, λ e. absurd e)
  error_at-IsErrorOf ret i other g x =
      rw (g, (laws.error_other ret i other g (λ h. cc, λ e h. cc)).1) (λ e. cc, λ e. absurd e)

  with_error-IsErrorOf :
      (v u : Value A R) (vs : List (Value A R)) (r0 : R) (x : R × Option GrpcError)
      → (with_error lib ctx a (v ∷ u ∷ vs) r0 ≡ returned x) ↔ ((r0 ≡ x.0) × IsErrorOf ctx a u x.1)
  with_error-IsErrorOf v u vs r0 x =
      paired_iff (IsErrorOf ctx a u) (error_at lib ctx a (v ∷ u ∷ vs) 1) r0 x
        (error_at-IsErrorOf (v ∷ u ∷ vs) 1 u (laws.get_second v u vs))

  with_error-past :
      (v : Value A R) (r0 : R) (x : R × Option GrpcError)
      → (with_error lib ctx a (v ∷ []) r0 ≡ returned x) ↔ ⊥
  with_error-past v r0 x = rw (laws.get_past v).1 (λ e. cc, λ e. absurd e)

  pub answer_of-IsAnswerOf :
      (name : Text) (zero_value : Option R) (ret : List (Value A R)) (x : R × Option GrpcError)
      → (answer_of lib ctx a name zero_value ret ≡ returned x) ↔ IsAnswerOf ctx a zero_value ret x
  answer_of-IsAnswerOf name zero_value [] x = (λ e. cc, λ e. absurd e)
  answer_of-IsAnswerOf name zero_value (both rf ∷ vs) x =
      rw (laws.get_first (both rf) vs) (λ e. cc, λ e. cc)
  answer_of-IsAnswerOf name zero_value (gives rf ∷ []) x =
      rw (laws.get_first (gives rf) []) (with_error-past (gives rf) (rf ctx a) x)
  answer_of-IsAnswerOf name zero_value (holds r ∷ []) x =
      rw (laws.get_first (holds r) []) (with_error-past (holds r) r x)
  answer_of-IsAnswerOf name (some r) (nil ∷ []) x =
      rw (laws.get_first nil []) (with_error-past nil r x)
  answer_of-IsAnswerOf name none (nil ∷ []) x = rw (laws.get_first nil []) (λ e. cc, λ e. absurd e)
  answer_of-IsAnswerOf name zero_value (fails rf ∷ []) x =
      rw (laws.get_first (fails rf) []) (λ e. cc, λ e. absurd e)
  answer_of-IsAnswerOf name zero_value (an_error r ∷ []) x =
      rw (laws.get_first (an_error r) []) (λ e. cc, λ e. absurd e)
  answer_of-IsAnswerOf name zero_value (other ∷ []) x =
      rw (laws.get_first other []) (λ e. cc, λ e. absurd e)
  answer_of-IsAnswerOf name zero_value (gives rf ∷ u ∷ vs) x =
      rw (laws.get_first (gives rf) (u ∷ vs)) (with_error-IsErrorOf (gives rf) u vs (rf ctx a) x)
  answer_of-IsAnswerOf name zero_value (holds r ∷ u ∷ vs) x =
      rw (laws.get_first (holds r) (u ∷ vs)) (with_error-IsErrorOf (holds r) u vs r x)
  answer_of-IsAnswerOf name (some r) (nil ∷ u ∷ vs) x =
      let (to, from) = with_error-IsErrorOf nil u vs r x in
      rw (laws.get_first nil (u ∷ vs)) (λ e. (cc ((to e).0), (to e).1), λ e. from (cc e.0, e.1))
  answer_of-IsAnswerOf name none (nil ∷ u ∷ vs) x =
      rw (laws.get_first nil (u ∷ vs)) (λ e. cc, λ e. cc e.0)
  answer_of-IsAnswerOf name zero_value (fails rf ∷ u ∷ vs) x =
      rw (laws.get_first (fails rf) (u ∷ vs)) (λ e. cc, λ e. absurd e.0)
  answer_of-IsAnswerOf name zero_value (an_error r ∷ u ∷ vs) x =
      rw (laws.get_first (an_error r) (u ∷ vs)) (λ e. cc, λ e. absurd e.0)
  answer_of-IsAnswerOf name zero_value (other ∷ u ∷ vs) x =
      rw (laws.get_first other (u ∷ vs)) (λ e. cc, λ e. absurd e.0)
