-- ===== src/Api/Calls.antt =====
-- What a handler does from one world to another, by a relation: each way to build a handler by a rule.
pub mod Reads
pub mod Failures
use headtotails.Prelude.{
  ◌≡◌, refl, sym, ap, ◌∙◌, Bool, true, false, Bool-cases, inl, inr, Option, none, some, List, [],
  ◌∷◌, ◌++◌, append-nil, append_assoc, All, All-append,
}
use headtotails.Text.{Text, codes}
use headtotails.Proto.{GrpcError, Outcome, ok, err}
use headtotails.Headscale.{Rpc, list_users, get_policy, Reply, HeadscaleClient}
use headtotails.Api.Http.{Request, Response}
use headtotails.Api.Handler.{
  World, Flow, done, next, Handler, pure, respond, continue, call, run, ◌>>=◌,
}
use headtotails.Api.Keys.{
  key_resolve_error, upstream, Resolved, resolved, refused, resolve_tailnet_user, or_resolve_error,
  tailnet_user,
}
use headtotails.Api.Policy.{or_empty_policy, is_unset}
use headtotails.Api.Errors.{
  observe_grpc_error, write_grpc_error, or_grpc_error, call_or_error, or_bad_request,
}

-- The relation holds of a world with itself, and along a chain.
pub record Composes {S : Type 0} (R : World S → World S → Type 0) : Type 0 where
  pub same : (w : World S) → R w w
  pub along : (u v w : World S) → R u v → R v w → R u w

-- From any world, `m` leads to one that is related to it.
pub record Makes {S A : Type 0} (R : World S → World S → Type 0) (m : Handler S A) : Type 0 where
  pub at : (w : World S) → R w (m w).1

-- Every call but the one whose failure may pass for an unset policy.
abbrev pub is_plain : Rpc → Bool
is_plain get_policy = false
is_plain _ = true

-- It also holds of the three ways in which the handlers make a call, if the call has a property: a
-- call whose failure ends the request, the look-up of the tailnet's user, and the policy.
pub record Allows {S : Type 0} (hs : HeadscaleClient S) (R : World S → World S → Type 0)
    (P : Rpc → Type 0) : Type 0 where
  pub composes : Composes R
  pub asks : (r : Request) (q : Rpc) → P q → is_plain q ≡ true → Makes R (call_or_error hs r q)
  pub resolves : (name : Text) (r : Request) → P list_users → Makes R (tailnet_user hs name r)
  pub shows :
      (r : Request) (show : Text → Response)
      → P get_policy
      → Makes R (call hs get_policy >>= λ o. or_empty_policy r o >>= λ text. pure (show text))

-- It holds of the report of an error and of each call alone.
pub record Steps {S : Type 0} (hs : HeadscaleClient S) (R : World S → World S → Type 0)
    (P : Rpc → Type 0) : Type 0 where
  pub chain : Composes R
  pub reports : (r : Request) (e : GrpcError) (w : World S) → R w (observe_grpc_error r e w)
  pub calls : (q : Rpc) (w : World S) → P q → R w (call hs q w).1

module _ {S : Type 0} {R : World S → World S → Type 0} (c : Composes R) where
  module _ {A : Type 0} where
    pub Makes-pure : (a : A) → Makes R (pure a)
    Makes-pure a = record { at = c.same }

    pub Makes-respond : (x : Response) → Makes {A = A} R (respond x)
    Makes-respond x = record { at = c.same }

    pub Makes-or_bad_request : (msg : Text) (o : Option A) → Makes R (or_bad_request msg o)
    Makes-or_bad_request msg (some a) = Makes-pure a
    Makes-or_bad_request msg none = Makes-respond _

  module _ {A B : Type 0} (f : A → Handler S B) (each : (a : A) → Makes R (f a)) where
    along_continue : (u : World S) (x : Flow A × World S) → R u x.1 → R u (continue x f).1
    along_continue u (done r, w) h = h
    along_continue u (next a, w) h = c.along u w (f a w).1 h ((each a).at w)

    pub Makes-bind : (m : Handler S A) → Makes R m → Makes R (m >>= f)
    Makes-bind m h = record { at = λ w. along_continue w (m w) (h.at w) }

-- What each step keeps, the three ways keep.
module _ {S : Type 0} {hs : HeadscaleClient S} {R : World S → World S → Type 0} {P : Rpc → Type 0}
    (steps : Steps hs R P) where
  reported_by : {A : Type 0} (r : Request) (e : GrpcError) → Makes {A = A} R (write_grpc_error r e)
  unfolding write_grpc_error
  reported_by r e = record { at = steps.reports r e }

  or_grpc_error-Makes : {A : Type 0} (r : Request) (o : Outcome A) → Makes R (or_grpc_error r o)
  or_grpc_error-Makes r (ok a) = Makes-pure steps.chain a
  or_grpc_error-Makes r (err e) = reported_by r e

  or_resolve_error-Makes : (r : Request) (o : Resolved) → Makes R (or_resolve_error r o)
  unfolding or_resolve_error
  or_resolve_error-Makes r (resolved u) = Makes-pure steps.chain u
  or_resolve_error-Makes r (refused (key_resolve_error status msg)) = Makes-respond steps.chain _
  or_resolve_error-Makes r (refused (upstream e)) = reported_by r e

  or_empty_policy-Makes : (r : Request) (o : Outcome Text) → Makes R (or_empty_policy r o)
  or_empty_policy-Makes r (ok text) = Makes-pure steps.chain text
  or_empty_policy-Makes r (err e) = elim (Bool-cases (is_unset e.code)) [
    | inl unset ↦ rw unset (Makes-pure steps.chain (codes "{}"))
    | inr known ↦ rw known (reported_by r e)
  ]

  called : (q : Rpc) → P q → Makes R (call hs q)
  called q p = record { at = λ w. steps.calls q w p }

  tailnet_user-Makes : (name : Text) (r : Request) → P list_users → Makes R (tailnet_user hs name r)
  unfolding resolve_tailnet_user
  tailnet_user-Makes name r p =
      Makes-bind steps.chain (or_resolve_error r) (or_resolve_error-Makes r) _ (
        Makes-bind steps.chain _ (λ us. Makes-pure steps.chain _) (call hs list_users)
          (called list_users p))

  pub Steps-Allows : Allows hs R P
  Steps-Allows = record {
    composes = steps.chain;
    asks = λ r q p plain.
        Makes-bind steps.chain (or_grpc_error r) (or_grpc_error-Makes r) (call hs q) (called q p);
    resolves = tailnet_user-Makes;
    shows = λ r show p.
        Makes-bind steps.chain _
          (λ o.
            Makes-bind steps.chain _ (λ text. Makes-pure steps.chain _) (or_empty_policy r o)
              (or_empty_policy-Makes r o))
          (call hs get_policy) (called get_policy p);
  }

-- From one world to another, calls were added that have a property.
abbrev pub Added : {S : Type 0} → (Rpc → Type 0) → World S → World S → Type 0
Added P w w' = (t : List Rpc) × (w'.calls ≡ w.calls ++ t) × All P t

module _ {S : Type 0} (P : Rpc → Type 0) where
  pub Added-Composes : Composes {S = S} (Added P)
  Added-Composes = record {
    same = λ w. ([], sym (append-nil w.calls), tt);
    along = λ u v w (t, p, h) (t', p', h').
        (t ++ t', p' ∙ ap (λ c. c ++ t') p ∙ append_assoc u.calls t t', All-append P t t' h h');
  }

  pub Added-Allows : (hs : HeadscaleClient S) → Allows hs (Added P) P
  unfolding observe_grpc_error call
  Added-Allows hs = Steps-Allows (record {
    chain = Added-Composes;
    reports = λ r e w. ([], sym (append-nil w.calls), tt);
    calls = λ q w p. (q ∷ [], refl, (p, tt));
  })
