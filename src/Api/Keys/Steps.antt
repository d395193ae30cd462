-- ===== src/Api/Keys/Steps.antt =====
-- The steps that the handlers of keys share: what each does, and how the request may end in it.
use headtotails.Prelude.{
  ℕ, ◌≡◌, refl, ◌≢◌, ◌⊎◌, inl, inr, ◌++◌, Option, none, some, List, [], ◌∷◌, arith, Among,
  All-among,
}
use headtotails.Text.{Text, codes, eq_iff}
use headtotails.Text.Decimal.{format}
use headtotails.Proto.{User, PreAuthKey, Code, Outcome, ok, err}
use headtotails.Headscale.{list_users, list_pre_auth_keys, HeadscaleClient}
use headtotails.Headscale.Client.Laws.{OwnedBy, IsScoped}
use headtotails.Api.Http.{Request, Response, url_param, write_error}
use headtotails.Api.Handler.{done, Handler, pure, call, ◌>>=◌}
use headtotails.Api.Errors.{call_or_error}
use headtotails.Api.Errors.Status.{write_error-fails}
use headtotails.Api.Effects.{
  Effect, Does, Does-pure, Does-respond, Does-write_grpc_error, Does-call, Does-bind, Rest,
  Does-call_or_error, Reported, Granted, reported,
}
use headtotails.Api.Keys.Tenancy.{select_user-own}
use headtotails.Api.Keys.{
  key_resolve_error, upstream, Resolved, resolved, refused, select_user, find_key_by_id,
  or_resolve_error, or_key_not_found, resolve_among, resolve_tailnet_user, tailnet_user, find_key,
  dash,
}

-- A refusal has a status of its own that is no success.
abbrev Refuses : Resolved → Type 0
Refuses (refused (key_resolve_error status msg)) = status ≢ 200
Refuses (refused (upstream e)) = ⊥
Refuses (resolved u) = Unit

select_user-Refuses :
    (name tailnet : Text) (users : List User) → Refuses (select_user name tailnet users)
unfolding select_user
select_user-Refuses name tailnet [] = omega arith
select_user-Refuses name tailnet (u ∷ []) = ground arith
select_user-Refuses name tailnet (u ∷ v ∷ users) = ground arith

find_key_by_id_sound :
    (keys : List PreAuthKey) (id : Text) (k : PreAuthKey)
    → find_key_by_id keys id ≡ some k
    → Among k keys × (format k.id ≡ id)
unfolding find_key_by_id
find_key_by_id_sound [] id k h = ground arith
find_key_by_id_sound (j ∷ keys) id k h =
    ground (arith, find_key_by_id_sound keys id k, eq_iff (format j.id) id)

-- A user that the client listed, with the name that is configured.
abbrev pub Listed : {S : Type 0} → HeadscaleClient S → Text → User → Type 0
Listed hs name u = (us : List User) × Granted hs list_users us × Among u us × (u.name ≡ name)

-- A key that the client listed for the user, and that is his.
abbrev pub Owned : {S : Type 0} → HeadscaleClient S → Text → PreAuthKey → Type 0
Owned hs name k =
    (keys : List PreAuthKey) × Granted hs (list_pre_auth_keys name) keys
    × Among k keys
    × OwnedBy name k

-- Why no user is found: the list failed, or it was answered and the tailnet is refused.
abbrev pub Unresolved : {S : Type 0} → HeadscaleClient S → Text → Text → Response → Type 0
Unresolved hs name tailnet x =
    Reported hs list_users x
    ⊎ ((us : List User) × (status : ℕ) × (msg : Text) × Granted hs list_users us
        × (select_user name tailnet us ≡ refused (key_resolve_error status msg))
        × (x ≡ write_error status msg)
        × (x.status ≢ 200))

-- Why no key is found: the list failed, or it was answered and no key has the id.
abbrev pub Unlisted : {S : Type 0} → HeadscaleClient S → Text → Text → Response → Type 0
Unlisted hs name key_id x =
    Reported hs (list_pre_auth_keys name) x
    ⊎ ((keys : List PreAuthKey) × Granted hs (list_pre_auth_keys name) keys
        × (find_key_by_id keys key_id ≡ none)
        × (x ≡ write_error 404 (codes "key " ++ key_id ++ codes " not found"))
        × (x.status ≢ 200))

module _ {S B : Type 0} (hs : HeadscaleClient S) (name : Text) (r : Request) (Q : Effect B) where
  abbrev tailnet : Text
  tailnet = url_param r (codes "tailnet")

  abbrev Ends : Type 0
  Ends =
      (es : List Code) (x : Response)
      → Unresolved hs name tailnet x
      → Q (list_users ∷ []) es (done x)

  abbrev Continues : (User → Handler S B) → Type 0
  Continues f =
      (us : List User) (u : User)
      → Granted hs list_users us
      → select_user name tailnet us ≡ resolved u
      → Does (f u) (λ t es x. Q (list_users ∷ t) es x)

  Does-or_resolve_error :
      (f : User → Handler S B) (us : List User) (x : Resolved)
      → Granted hs list_users us
      → select_user name tailnet us ≡ x
      → Refuses x
      → Ends
      → Continues f
      → Does {S = S} (or_resolve_error r x) (λ t es y. Rest Q f (list_users ∷ t) es y)
  unfolding or_resolve_error
  Does-or_resolve_error f us (resolved u) listed p ref bad good = Does-pure u (good us u listed p)
  Does-or_resolve_error f us (refused (key_resolve_error status msg)) listed p ref bad good =
      Does-respond (write_error status msg)
        (bad [] _ (inr (us, status, msg, listed, p, refl, write_error-fails msg ref)))
  Does-or_resolve_error f us (refused (upstream e)) listed p ref bad good = absurd ref

  Does-resolve_among :
      (f : User → Handler S B) (s : S) (o : Outcome (List User))
      → (hs [] list_users s).0 ≡ o
      → Ends
      → Continues f
      → Does {S = S}
          (or_resolve_error r (resolve_among name tailnet o))
          (λ t es y. Rest Q f (list_users ∷ t) es y)
  unfolding or_resolve_error
  Does-resolve_among f s (err e) p bad good =
      Does-write_grpc_error r e (bad (e.code ∷ []) _ (inl (reported hs list_users s e p)))
  Does-resolve_among f s (ok us) p bad good =
      Does-or_resolve_error f us (select_user name tailnet us) (s, p) refl
        (select_user-Refuses name tailnet us) bad good

  -- The request ends here with a refusal, or goes on with a user for whom the tailnet stands.
  pub Does-tailnet_user :
      (f : User → Handler S B)
      → ((es : List Code) (x : Response)
          → Unresolved hs name (url_param r (codes "tailnet")) x
          → Q (list_users ∷ []) es (done x))
      → ((us : List User) (u : User)
          → Granted hs list_users us
          → select_user name (url_param r (codes "tailnet")) us ≡ resolved u
          → Does (f u) (λ t es x. Q (list_users ∷ t) es x))
      → Does (tailnet_user hs name r >>= f) Q
  unfolding resolve_tailnet_user
  Does-tailnet_user f bad good = Does-bind (tailnet_user hs name r) f Q (
      Does-bind (resolve_tailnet_user hs name tailnet) (or_resolve_error r) (Rest Q f) (
        Does-bind (call hs list_users) (λ o. pure (resolve_among name tailnet o))
          (Rest (Rest Q f) (or_resolve_error r))
          (Does-call hs list_users (λ s.
            Does-pure (resolve_among name tailnet (hs [] list_users s).0)
              (Does-resolve_among f s (hs [] list_users s).0 refl bad good)))))

-- With a tailnet configured and a scoped client, the key found is the configured user's, and has
-- the id of the path.
module _ {S B : Type 0} (hs : HeadscaleClient S) (sc : IsScoped hs) (name : Text)
    (configured : name ≢ dash) (named : name ≢ []) (r : Request) (key_id : Text)
    (Q : Effect B) where
  abbrev Unfound : Type 0
  Unfound =
      (es : List Code) (x : Response)
      → Unlisted hs name key_id x
      → Q (list_users ∷ list_pre_auth_keys name ∷ []) es (done x)

  abbrev Finds : (PreAuthKey → Handler S B) → Type 0
  Finds f =
      (k : PreAuthKey)
      → Owned hs name k
      → format k.id ≡ key_id
      → Does (f k) (λ t es x. Q (list_users ∷ list_pre_auth_keys name ∷ t) es x)

  Does-or_key_not_found :
      (f : PreAuthKey → Handler S B) (keys : List PreAuthKey) (o : Option PreAuthKey)
      → Granted hs (list_pre_auth_keys name) keys
      → find_key_by_id keys key_id ≡ o
      → Unfound
      → Finds f
      → Does {S = S}
          (or_key_not_found key_id o)
          (λ t es y. Rest Q f (list_users ∷ list_pre_auth_keys name ∷ t) es y)
  unfolding or_key_not_found
  Does-or_key_not_found f keys none listed p bad good =
      Does-respond (write_error 404 _)
        (bad [] _ (inr (keys, listed, p, refl, write_error-fails {status = 404} _ (omega arith))))
  Does-or_key_not_found f keys (some k) (s, listed) p bad good =
      let (among, same) = find_key_by_id_sound keys key_id k p in
      Does-pure k (
        good k
          (
            keys,
            (s, listed),
            among,
            All-among (OwnedBy name) keys (sc.scoped [] name s keys named listed) among,
          )
          same)

  Does-list_then_find :
      (f : PreAuthKey → Handler S B) (user : Text)
      → user ≡ name
      → Unfound
      → Finds f
      → Does {S = S}
          (call_or_error hs r (list_pre_auth_keys user) >>= λ keys.
            or_key_not_found key_id (find_key_by_id keys key_id))
          (λ t es y. Rest Q f (list_users ∷ t) es y)
  Does-list_then_find f user e bad good = rw e (
      Does-call_or_error hs r (list_pre_auth_keys name) (λ t es y. Rest Q f (list_users ∷ t) es y)
        (λ keys. or_key_not_found key_id (find_key_by_id keys key_id))
        (λ s e p. bad (e.code ∷ []) _ (inl (reported hs (list_pre_auth_keys name) s e p)))
        (λ s keys p.
          Does-or_key_not_found f keys (find_key_by_id keys key_id) (s, p) refl bad good))

  pub Does-find_key :
      (f : PreAuthKey → Handler S B)
      → ((es : List Code) (x : Response)
          → Unresolved hs name (url_param r (codes "tailnet")) x
          → Q (list_users ∷ []) es (done x))
      → Unfound
      → Finds f
      → Does (find_key hs name r key_id >>= f) Q
  Does-find_key f unresolved unlisted good = Does-bind (find_key hs name r key_id) f Q (
      Does-tailnet_user hs name r (Rest Q f)
        (λ user. call_or_error hs r (list_pre_auth_keys user.name) >>= λ keys.
          or_key_not_found key_id (find_key_by_id keys key_id))
        unresolved
        (λ us u listed p.
          Does-list_then_find f u.name
            (select_user-own name (url_param r (codes "tailnet")) us u configured p).1 unlisted
            good))
