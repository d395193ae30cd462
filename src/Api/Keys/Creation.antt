-- ===== src/Api/Keys/Creation.antt =====
-- `CreateKey` of internal/api/keys.go: its calls and its responses.
use headtotails.Prelude.{
  ℕ, zero, suc, ℤ, pos, negsuc, ◌≡◌, refl, sym, ◌≢◌, false, Bool-cases, inl, inr, if◌then◌else◌,
  Option, none, some, List, [], ◌∷◌, ◌++◌,
}
use headtotails.Text.{Text, codes, ◌==◌, eq_iff}
use headtotails.Text.Decimal.{format}
use headtotails.Time.{Time, add, seconds}
use headtotails.Model.{Key, CreateKeyRequest}
use headtotails.Proto.{User, PreAuthKey, CreatePreAuthKeyRequest, ok}
use headtotails.Headscale.{Rpc, list_users, create_pre_auth_key, HeadscaleClient}
use headtotails.Translate.{
  pre_auth_key_to_key, key_request_to_create_pre_auth_key_request, expiry_or_default,
}
use headtotails.Translate.Expiry.{IsLifetime, given, unset, negative}
use headtotails.Api.Http.{
  Request, JsonDecoder, Response, url_param, key_json, write_json, write_error,
}
use headtotails.Api.Handler.{World, answer, pure, ◌>>=◌}
use headtotails.Api.Errors.{call_or_error, or_bad_request}
use headtotails.Api.Effects.{Does, Does-pure, Does-respond, Does-call_or_error, Reported, reported}
use headtotails.Api.Keys.{dash, create_key}
use headtotails.Api.Keys.Tenancy.{select_user-own}
use headtotails.Api.Keys.Steps.{Listed, Unresolved, Does-tailnet_user}

abbrev proto_request : Time → CreateKeyRequest → User → CreatePreAuthKeyRequest
proto_request now req u = key_request_to_create_pre_auth_key_request now req u.id

-- The request to headscale that a body means: for this user, with the capabilities of the body, and
-- with an expiration as far away as the body says, or an hour.
pub record Means (now : Time) (body : CreateKeyRequest) (u : User) (q : CreatePreAuthKeyRequest)
    : Type 0 where
  pub for_user : q.user ≡ u.id
  pub same_reusable : q.reusable ≡ body.capabilities.devices.create.reusable
  pub same_ephemeral : q.ephemeral ≡ body.capabilities.devices.create.ephemeral
  pub same_tags : q.acl_tags ≡ body.capabilities.devices.create.tags
  pub lasts :
      (secs : ℕ) × IsLifetime body.expiry_seconds secs
      × (q.expiration ≡ some (add now (seconds secs)))

-- What the response shows of the key that the client returned: its id, its secret, whether it was
-- used, its capabilities, which are never preauthorized, and nothing of a key that is nil.
pub data ShowsKey : Option PreAuthKey → Key → Type 0 where
  nothing : {shown : Key} → shown.key ≡ [] → shown.id ≡ format 0 → ShowsKey none shown
  the_key :
      {k : PreAuthKey} {shown : Key}
      → shown.id ≡ format k.id
      → shown.key ≡ k.key
      → shown.invalid ≡ k.used
      → shown.capabilities.devices.create.reusable ≡ k.reusable
      → shown.capabilities.devices.create.ephemeral ≡ k.ephemeral
      → shown.capabilities.devices.create.preauthorized ≡ false
      → shown.capabilities.devices.create.tags ≡ k.acl_tags
      → ShowsKey (some k) shown

lifetime : (e : ℤ) → IsLifetime e (expiry_or_default e)
unfolding expiry_or_default
lifetime (pos zero) = unset
lifetime (pos (suc n)) = given n
lifetime (negsuc n) = negative n

proto_request-Means :
    (now : Time) (req : CreateKeyRequest) (u : User) → Means now req u (proto_request now req u)
unfolding key_request_to_create_pre_auth_key_request
proto_request-Means now req u = record {
  for_user = refl;
  same_reusable = refl;
  same_ephemeral = refl;
  same_tags = refl;
  lasts = (expiry_or_default req.expiry_seconds, lifetime req.expiry_seconds, refl);
}

shown_key : (k : Text) → (if k == [] then [] else k) ≡ k
shown_key k = elim (Bool-cases (k == [])) [
  | inl unnamed ↦ rw unnamed (sym ((eq_iff k []).0 unnamed))
  | inr named ↦ rw named refl
]

pre_auth_key_to_key-ShowsKey : (key : Option PreAuthKey) → ShowsKey key (pre_auth_key_to_key key)
unfolding pre_auth_key_to_key ◌==◌
pre_auth_key_to_key-ShowsKey none = nothing refl refl
pre_auth_key_to_key-ShowsKey (some k) = the_key refl (shown_key k.key) refl refl refl refl refl

-- The client returned this key for a request, in some state.
abbrev pub Made :
    {S : Type 0} → HeadscaleClient S → CreatePreAuthKeyRequest → Option PreAuthKey → Type 0
Made {S} hs req key = (s : S) × ((hs [] (create_pre_auth_key req) s).0 ≡ ok key)

-- How a request to create a key may end; `decoded` is its body.
pub data Creation {S : Type 0} (hs : HeadscaleClient S) (name tailnet : Text) (now : Time)
    (decoded : Option CreateKeyRequest) (t : List Rpc) (x : Response) : Type 0 where
  unresolved :
      t ≡ list_users ∷ [] → Unresolved hs name tailnet x → Creation hs name tailnet now decoded t x
  undecoded :
      t ≡ list_users ∷ []
      → decoded ≡ none
      → x ≡ write_error 400 (codes "invalid request body")
      → Creation hs name tailnet now decoded t x
  failed :
      (u : User) (body : CreateKeyRequest) (req : CreatePreAuthKeyRequest)
      → Listed hs name u
      → decoded ≡ some body
      → Means now body u req
      → t ≡ list_users ∷ create_pre_auth_key req ∷ []
      → Reported hs (create_pre_auth_key req) x
      → Creation hs name tailnet now decoded t x
  created :
      (u : User) (body : CreateKeyRequest) (req : CreatePreAuthKeyRequest) (key : Option PreAuthKey)
      (shown : Key)
      → Listed hs name u
      → decoded ≡ some body
      → Means now body u req
      → t ≡ list_users ∷ create_pre_auth_key req ∷ []
      → Made hs req key
      → ShowsKey key shown
      → x ≡ write_json 200 (key_json shown)
      → Creation hs name tailnet now decoded t x

module _ {S : Type 0} (hs : HeadscaleClient S) (name : Text) (configured : name ≢ dash) (now : Time)
    (decode : JsonDecoder) (r : Request) where
  create_for :
      (u : User) (o : Option CreateKeyRequest)
      → Listed hs name u
      → decode.create_key r ≡ o
      → Does {S = S}
          (or_bad_request (codes "invalid request body") o >>= λ req.
            call_or_error hs r (create_pre_auth_key (proto_request now req u)) >>= λ key.
            pure (write_json 200 (key_json (pre_auth_key_to_key key))))
          (λ t es x.
            Creation hs name
              (url_param r (codes "tailnet"))
              now
              (decode.create_key r)
              (list_users ∷ t)
              (answer x))
  create_for u none own p = Does-respond _ (undecoded refl p refl)
  create_for u (some req) own p =
      Does-call_or_error hs r (create_pre_auth_key (proto_request now req u)) _ _
        (λ s e q.
          failed u req (proto_request now req u) own p (proto_request-Means now req u) refl
            (reported hs (create_pre_auth_key (proto_request now req u)) s e q))
        (λ s key q. Does-pure _ (
          created u req (proto_request now req u) key (pre_auth_key_to_key key) own p
            (proto_request-Means now req u) refl (s, q) (pre_auth_key_to_key-ShowsKey key) refl))

  -- With a tailnet configured, a request to create a key makes one call to create it at most, for
  -- the configured user, with the capabilities of the request's body and its expiration, an hour
  -- from now if it names no positive one, and shows the id, the secret and the capabilities of the
  -- key that the client returned. It fails only if the users cannot be listed, the tailnet is
  -- refused, the body is not decoded or the client answers the call with an error.
  pub create_key-Creation :
      (w : World S)
      → (t : List Rpc) × ((create_key hs name now decode r w).1.calls ≡ w.calls ++ t)
        × Creation hs name
            (url_param r (codes "tailnet"))
            now
            (decode.create_key r)
            t
            (create_key hs name now decode r w).0
  unfolding create_key
  create_key-Creation w =
      let all =
        Does-tailnet_user hs name r
          (λ t es x.
            Creation hs name (url_param r (codes "tailnet")) now (decode.create_key r) t (answer x))
          (λ u. or_bad_request (codes "invalid request body") (decode.create_key r) >>= λ req.
            call_or_error hs r (create_pre_auth_key (proto_request now req u)) >>= λ key.
            pure (write_json 200 (key_json (pre_auth_key_to_key key))))
          (λ es x h. Creation.unresolved refl h)
          (λ us u listed p.
            let (among, same) =
              select_user-own name (url_param r (codes "tailnet")) us u configured p in
            create_for u (decode.create_key r) (us, listed, among, same) refl) in
      let (t, es, calls, errors, made) = all.at w in (t, calls, made)
