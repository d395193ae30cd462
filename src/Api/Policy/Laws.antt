-- ===== src/Api/Policy/Laws.antt =====
-- internal/api/policy.go: the two handlers, one after the other.
use headtotails.Prelude.{
  ◌≡◌, ◌≢◌, ◌↔◌, ◌⊎◌, refl, sym, ◌∙◌, true, false, inl, inr, Bool-cases, some, [], ◌∷◌, ◌++◌,
}
use headtotails.Text.{Text, codes}
use headtotails.Proto.{Code, not_found, unknown, GrpcError, Outcome, ok, err}
use headtotails.Headscale.{get_policy, set_policy, HeadscaleClient}
use headtotails.Text.Affix.{contains}
use headtotails.Api.Http.{Request, Response, policy_json, raw, write_json, write_error}
use headtotails.Api.Handler.{World, call}
use headtotails.Api.Errors.{grpc_status_to_http, write_grpc_error, observe_grpc_error}
use headtotails.Api.Errors.Status.{grpc_status_ne_200, write_error-fails}
use headtotails.Api.Policy.{is_unset, show_policy, get_policy_handler, set_policy_handler}

-- A policy that the service accepts is the one that it returns next.
abbrev pub KeepsPolicy : {S : Type 0} → HeadscaleClient S → Type 0
KeepsPolicy {S} hs =
    (p : Text) (s : S)
    → (hs [] (set_policy p) s).0 ≡ ok tt
    → (hs [] get_policy (hs [] (set_policy p) s).1).0 ≡ ok p

-- A response that gives a policy in the representation that the request accepts: the text itself
-- for HuJSON, and otherwise wrapped as JSON.
pub data Gives (r : Request) (policy : Text) (x : Response) : Type 0 where
  as_hujson :
      contains r.accept (codes "application/hujson") ≡ true
      → x.status ≡ 200
      → x.content_type ≡ some (codes "application/hujson")
      → x.body ≡ raw policy
      → Gives r policy x
  as_json :
      contains r.accept (codes "application/hujson") ≡ false
      → x.status ≡ 200
      → x.content_type ≡ some (codes "application/json")
      → x.body ≡ policy_json policy
      → Gives r policy x

show_policy-Gives : (r : Request) (policy : Text) → Gives r policy (show_policy r policy)
unfolding show_policy write_json
show_policy-Gives r policy = elim (Bool-cases (contains r.accept (codes "application/hujson"))) [
  | inl hu ↦ as_hujson hu (rw hu refl) (rw hu refl) (rw hu refl)
  | inr js ↦ as_json js (rw js refl) (rw js refl) (rw js refl)
]

-- How a request for the policy ends, given what the service answers.
pub data Shows {S : Type 0} (r : Request) (w : World S) (x : Response × World S)
    : Outcome Text → Type 0 where
  has_policy :
      (policy : Text)
      → Gives r policy x.0
      → x.1.grpc_errors ≡ w.grpc_errors
      → Shows r w x (ok policy)
  taken_as_unset :
      (e : GrpcError)
      → (e.code ≡ not_found) ⊎ (e.code ≡ unknown)
      → Gives r (codes "{}") x.0
      → x.1.grpc_errors ≡ w.grpc_errors
      → Shows r w x (err e)
  fails :
      (e : GrpcError)
      → e.code ≢ not_found
      → e.code ≢ unknown
      → x.0 ≡ write_error (grpc_status_to_http e.code) e.text
      → x.0.status ≢ 200
      → x.1.grpc_errors ≡ w.grpc_errors ++ e.code ∷ []
      → Shows r w x (err e)

unset_code : (c : Code) → is_unset c ≡ true → (c ≡ not_found) ⊎ (c ≡ unknown)
unset_code not_found h = inl refl
unset_code unknown h = inr refl
unset_code _ h = cc

is_unset_iff : (c : Code) → (is_unset c ≡ true) ↔ ((c ≡ not_found) ⊎ (c ≡ unknown))
is_unset_iff c = (unset_code c, λ h. elim h [ inl e ↦ rw e refl | inr e ↦ rw e refl ])

module _ {S : Type 0} (hs : HeadscaleClient S) where
  shows :
      (r : Request) (w : World S) (o : Outcome Text)
      → (hs [] get_policy w.upstream).0 ≡ o
      → Shows r w (get_policy_handler hs r w) o
  unfolding get_policy_handler call write_grpc_error observe_grpc_error
  shows r w (ok policy) p = has_policy policy (rw p (show_policy-Gives r policy)) (rw p refl)
  shows r w (err e) p = elim (Bool-cases (is_unset e.code)) [
    | inl unset ↦
        taken_as_unset e ((is_unset_iff e.code).0 unset)
          (rw (p, unset) (show_policy-Gives r (codes "{}"))) (rw (p, unset) refl)
    | inr known ↦
        fails e (λ h. cc (known, (is_unset_iff e.code).1 (inl h)))
          (λ h. cc (known, (is_unset_iff e.code).1 (inr h))) (rw (p, known) refl)
          (rw (p, known) (write_error-fails e.text (grpc_status_ne_200 e.code)))
          (rw (p, known) refl)
  ]

  -- A request for the policy is answered with the policy that the service has, raw as HuJSON where
  -- the request accepts it and as JSON otherwise; with the empty policy "{}" and no error counted
  -- where the service answers with the code NotFound or Unknown; and with the service's error, never
  -- with 200, and counted once, where it answers with any other code.
  pub get_policy_handler-Shows :
      (r : Request) (w : World S)
      → Shows r w (get_policy_handler hs r w) (hs [] get_policy w.upstream).0
  get_policy_handler-Shows r w = shows r w (hs [] get_policy w.upstream).0 refl

  refused_status :
      (r : Request) (p : Text) (w : World S) (x : GrpcError)
      → r.body ≡ some p
      → (hs [] (set_policy p) w.upstream).0 ≡ err x
      → (set_policy_handler hs r w).0.status ≡ grpc_status_to_http x.code
  unfolding set_policy_handler call write_grpc_error write_error
  refused_status r p w x e q = rw (e, q) refl

  accepted :
      (r : Request) (p : Text) (w : World S) (o : Outcome Unit)
      → r.body ≡ some p
      → (hs [] (set_policy p) w.upstream).0 ≡ o
      → (set_policy_handler hs r w).0.status ≡ 200
      → ((hs [] (set_policy p) w.upstream).0 ≡ ok tt)
        × ((set_policy_handler hs r w).1.upstream ≡ (hs [] (set_policy p) w.upstream).1)
  unfolding set_policy_handler call
  accepted r p w (ok tt) e q h = (q, rw (e, q) refl)
  accepted r p w (err x) e q h =
      absurd (grpc_status_ne_200 x.code (sym (refused_status r p w x e q) ∙ h))

  given :
      {r : Request} {w : World S} {x : Response × World S} {policy : Text}
      → Shows r w x (ok policy)
      → Gives r policy x.0
  given (has_policy _ g _) = g

  -- With a client that returns the policy that it accepted, after a request to set a policy that
  -- was answered with 200, the next request for the policy is answered with the text of the body,
  -- raw as HuJSON where this next request accepts it and as JSON otherwise.
  pub set-get_policy :
      KeepsPolicy hs
      → (r g : Request) (p : Text) (w : World S) → r.body ≡ some p
      → (set_policy_handler hs r w).0.status ≡ 200
      → Gives g p (get_policy_handler hs g (set_policy_handler hs r w).1).0
  set-get_policy keeps r g p w e h =
      let (q, u) = accepted r p w (hs [] (set_policy p) w.upstream).0 e refl h in
      given (shows g (set_policy_handler hs r w).1 (ok p) (rw u (keeps p w.upstream q)))
