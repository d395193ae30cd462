-- ===== src/Api/Router/Permissions.antt =====
-- The calls on auth keys of each handler below /api/v2.
use headtotails.Prelude.{
  ◌≡◌, refl, sym, ap, ◌∙◌, subst, inl, inr, Bool-cases, Option, none, some, Option-cases, List, [],
  ◌∷◌, ◌++◌, append-nil, All,
}
use headtotails.Text.{Text, codes}
use headtotails.Time.{Time}
use headtotails.Proto.{User, Node, PreAuthKey, ok, err}
use headtotails.Headscale.{
  Rpc, list_pre_auth_keys, create_pre_auth_key, expire_pre_auth_key, delete_pre_auth_key,
  list_users, get_policy, HeadscaleClient,
}
use headtotails.Api.Users.{get_user}
use headtotails.Api.Policy.{get_policy_handler, is_unset}
use headtotails.Api.Handler.{call}
use headtotails.Api.Errors.{write_grpc_error}
use headtotails.Proto.{Outcome}
use headtotails.Model.{CreateKeyRequest}
use headtotails.Translate.{key_request_to_create_pre_auth_key_request, find_user_by_id}
use headtotails.Api.Http.{Request, JsonDecoder, Response, url_param}
use headtotails.Api.Handler.{World}
use headtotails.Api.Endpoints.{
  Endpoint, devices, device, device_delete, device_expire, device_name, device_tags, device_routes,
  device_set_routes, users, user_delete, policy_set, asked, device_id, ◌>>=◌ as bind_option,
}
use headtotails.Api.Endpoints.Answers.{Answer, rejected, failed, served}
use headtotails.Api.Keys.Steps.{Owned, Listed}
use headtotails.Api.Keys.Creation.{Creation}
use headtotails.Api.Keys.Deletion.{Deletion}
use headtotails.Api.Keys.Reading.{Reading, Listing}
use headtotails.Api.Devices.Authorize.{IsApproval, owned, unowned, absent, Approval}
use headtotails.Text.Decimal.{parse_uint}

-- What a call may do to auth keys: list those of the configured user, create one for him, and
-- expire or delete one of his.
abbrev pub Permitted : {S : Type 0} → HeadscaleClient S → Text → Rpc → Type 0
Permitted hs name (list_pre_auth_keys owner) = owner ≡ name
Permitted hs name (create_pre_auth_key req) = (u : User) × Listed hs name u × (req.user ≡ u.id)
Permitted hs name (expire_pre_auth_key id) = (k : PreAuthKey) × Owned hs name k × (id ≡ k.id)
Permitted hs name (delete_pre_auth_key id) = (k : PreAuthKey) × Owned hs name k × (id ≡ k.id)
Permitted hs name _ = Unit

-- From one world to another, calls were added that are permitted.
abbrev pub Within : {S : Type 0} → HeadscaleClient S → Text → World S → World S → Type 0
Within hs name w w' = (t : List Rpc) × (w'.calls ≡ w.calls ++ t) × All (Permitted hs name) t

module _ {S : Type 0} (hs : HeadscaleClient S) (name : Text) where
  abbrev Asks : Option Rpc → Type 0
  Asks none = Unit
  Asks (some q) = Permitted hs name q

  bind-Asks :
      {A : Type 0} (o : Option A) (f : A → Option Rpc)
      → ((a : A) → Asks (f a))
      → Asks (bind_option o f)
  bind-Asks none f h = tt
  bind-Asks (some a) f h = h a

  pub asked-Asks : (decode : JsonDecoder) (r : Request) (e : Endpoint) → Asks (asked decode r e)
  asked-Asks decode r devices = tt
  asked-Asks decode r users = tt
  asked-Asks decode r device_name =
      bind-Asks (device_id decode r) _ (λ id. bind-Asks (decode.device_name r) _ (λ body. tt))
  asked-Asks decode r device_tags =
      bind-Asks (device_id decode r) _ (λ id. bind-Asks (decode.device_tags r) _ (λ body. tt))
  asked-Asks decode r device_set_routes =
      bind-Asks (device_id decode r) _ (λ id. bind-Asks (decode.device_routes r) _ (λ body. tt))
  asked-Asks decode r user_delete =
      bind-Asks (parse_uint (url_param r (codes "userId"))) _ (λ id. tt)
  asked-Asks decode r policy_set = bind-Asks r.body _ (λ text. tt)
  asked-Asks decode r device = bind-Asks (device_id decode r) _ (λ id. tt)
  asked-Asks decode r device_delete = bind-Asks (device_id decode r) _ (λ id. tt)
  asked-Asks decode r device_expire = bind-Asks (device_id decode r) _ (λ id. tt)
  asked-Asks decode r device_routes = bind-Asks (device_id decode r) _ (λ id. tt)

  pub Answer-Within :
      (q? : Option Rpc) (w : World S) (x : Response × World S)
      → Asks q?
      → Answer hs q? w x
      → Within hs name w x.1
  Answer-Within q? w x p (rejected _ _ same) =
      ([], ap (λ (w : World S). w.calls) same ∙ sym (append-nil w.calls), tt)
  Answer-Within q? w x p (failed q e asks _ _ _ calls _) = (q ∷ [], calls, (subst Asks asks p, tt))
  Answer-Within q? w x p (served q a asks _ _ _ calls _) = (q ∷ [], calls, (subst Asks asks p, tt))

  pub Deletion-Permitted :
      {tailnet key_id : Text} {t : List Rpc} {x : Response}
      → Deletion hs name tailnet key_id t x
      → All (Permitted hs name) t
  Deletion-Permitted (Deletion.unresolved e _) = rw e (tt, tt)
  Deletion-Permitted (Deletion.unlisted e _) = rw e (tt, (refl, tt))
  Deletion-Permitted (Deletion.not_expired k own _ e _) = rw e (tt, (refl, ((k, own, refl), tt)))
  Deletion-Permitted (Deletion.not_deleted k own _ e _) =
      rw e (tt, (refl, ((k, own, refl), ((k, own, refl), tt))))
  Deletion-Permitted (Deletion.deleted k own _ e _ _ _) =
      rw e (tt, (refl, ((k, own, refl), ((k, own, refl), tt))))

  pub Creation-Permitted :
      {tailnet : Text} {now : Time} {o : Option CreateKeyRequest} {t : List Rpc} {x : Response}
      → Creation hs name tailnet now o t x
      → All (Permitted hs name) t
  unfolding key_request_to_create_pre_auth_key_request
  Creation-Permitted (Creation.unresolved e _) = rw e (tt, tt)
  Creation-Permitted (Creation.undecoded e _ _) = rw e (tt, tt)
  Creation-Permitted (Creation.failed u _ _ own _ means e _) =
      rw e (tt, ((u, own, means.for_user), tt))
  Creation-Permitted (Creation.created u _ _ _ _ own _ means e _ _ _) =
      rw e (tt, ((u, own, means.for_user), tt))

  pub Reading-Permitted :
      {tailnet key_id : Text} {t : List Rpc} {x : Response}
      → Reading hs name tailnet key_id t x
      → All (Permitted hs name) t
  Reading-Permitted (Reading.unresolved e _) = rw e (tt, tt)
  Reading-Permitted (Reading.missing e _) = rw e (tt, (refl, tt))
  Reading-Permitted (Reading.found k own _ e _) = rw e (tt, (refl, tt))

  pub Listing-Permitted :
      {tailnet : Text} {t : List Rpc} {x : Response}
      → Listing hs name tailnet t x
      → All (Permitted hs name) t
  Listing-Permitted (Listing.unresolved e _) = rw e (tt, tt)
  Listing-Permitted (Listing.failed e _) = rw e (tt, (refl, tt))
  Listing-Permitted (Listing.listed shown _ _ e _) = rw e (tt, (refl, tt))

  IsApproval-Permitted : {node : Option Node} {q : Rpc} → IsApproval node q → Permitted hs name q
  IsApproval-Permitted (owned n u _) = tt
  IsApproval-Permitted (unowned n _) = tt
  IsApproval-Permitted absent = tt

  pub Approval-Permitted :
      {decode : JsonDecoder} {r : Request} {t : List Rpc} {x : Response}
      → Approval hs decode r t x
      → All (Permitted hs name) t
  Approval-Permitted (Approval.rejected e _ _) = rw e tt
  Approval-Permitted (Approval.not_read id _ e _) = rw e (tt, tt)
  Approval-Permitted (Approval.left_alone id req _ _ _ e _) = rw e (tt, tt)
  Approval-Permitted (Approval.not_approved id _ _ _ _ _ _ _ call e _) =
      rw e (tt, (IsApproval-Permitted call, tt))
  Approval-Permitted (Approval.approved id _ _ _ _ _ _ _ call e _) =
      rw e (tt, (IsApproval-Permitted call, tt))

  pub user_calls :
      (r : Request) (w : World S) (o : Outcome (List User))
      → (hs [] list_users w.upstream).0 ≡ o
      → (get_user hs r w).1.calls ≡ w.calls ++ list_users ∷ []
  unfolding get_user call write_grpc_error
  user_calls r w (err e) p = rw p refl
  user_calls r w (ok us) p =
      elim (Option-cases (find_user_by_id us (url_param r (codes "userId")))) [
        | inl q ↦ rw (p, q) refl
        | inr (u, q) ↦ rw (p, q) refl
      ]

  pub policy_calls :
      (r : Request) (w : World S) (o : Outcome Text)
      → (hs [] get_policy w.upstream).0 ≡ o
      → (get_policy_handler hs r w).1.calls ≡ w.calls ++ get_policy ∷ []
  unfolding get_policy_handler call write_grpc_error
  policy_calls r w (ok text) p = rw p refl
  policy_calls r w (err e) p = elim (Bool-cases (is_unset e.code)) [
    | inl unset ↦ rw (p, unset) refl
    | inr known ↦ rw (p, known) refl
  ]
