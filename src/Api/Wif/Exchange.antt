-- ===== src/Api/Wif/Exchange.antt =====
-- `TokenExchangeHandler`, POST /oauth/token-exchange: a valid JWT is exchanged for a token of the
-- store. The validator is an interface, over a state of its own; nil is `none`.
use headtotails.Prelude.{
  ℕ, ◌≡◌, ◌≢◌, Bool, true, false, not, Option, none, some, List, [], ◌++◌, arith, refl,
  if◌then◌else◌,
}
use headtotails.Text.{Text, codes, ◌==◌, eq_iff}
use headtotails.Time.{Time}
use headtotails.Api.Http.{Request, form_value, Response, write_error}
use headtotails.Api.TokenStore.{TokenStore}
use headtotails.Api.Oauth.{Crypto, generate_token, issue}
use headtotails.Api.Oauth.Laws.{Issuing, refused, issue-Issuing}
use headtotails.Api.Wif.Jwt.{JwtClaims}

-- The claims, or the text of the error.
pub data Validated : Type 0 where
  valid : JwtClaims → Validated
  invalid : Text → Validated

-- `JWTValidator`.
abbrev pub JwtValidator : Type 0 → Type 0
JwtValidator V = Text → V → Validated × V

-- The client id of Basic Auth, or of the form.
abbrev basic_id : Option (Text × Text) → Text
basic_id none = []
basic_id (some (id, secret)) = id

unfoldable pub exchange_client_id : Request → Text
exchange_client_id r =
    let id = basic_id r.basic_auth in if id == [] then form_value r (codes "client_id") else id

abbrev pub exchanged :
    {V : Type 0}
    → Crypto
    → Text
    → Option (List ℕ)
    → Time
    → TokenStore
    → Validated × V
    → (Response × TokenStore) × V
exchanged crypto hmac_secret random now ts (invalid e, v) =
    ((write_error 401 (codes "invalid JWT: " ++ e), ts), v)
exchanged crypto hmac_secret random now ts (valid claims, v) =
    (issue now (generate_token crypto hmac_secret random) ts, v)

module _ {V : Type 0} (hmac_secret expected_client_id : Text) (crypto : Crypto) where
  unfoldable pub token_exchange_handler :
      Option (JwtValidator V)
      → Option (List ℕ)
      → Time
      → Request
      → TokenStore
      → V
      → (Response × TokenStore) × V
  unfolding exchange_client_id
  token_exchange_handler none random now r ts v =
      ((write_error 501 (codes "workload identity federation is not configured"), ts), v)
  token_exchange_handler (some validate) random now r ts v =
      let client_id = exchange_client_id r in
      let jwt = form_value r (codes "jwt") in
      if not (form_value r (codes "grant_type") == codes "client_credentials")
      then (
        (
          write_error 400 (codes "unsupported grant_type; only client_credentials is supported"),
          ts,
        ),
        v,
      )
      else if client_id == []
      then ((write_error 400 (codes "missing client_id"), ts), v)
      else if not (client_id == expected_client_id)
      then ((write_error 401 (codes "invalid client_id"), ts), v)
      else if jwt == []
      then ((write_error 400 (codes "missing jwt parameter"), ts), v)
      else exchanged crypto hmac_secret random now ts (validate jwt v)

  exchanged-Issuing :
      (random : Option (List ℕ)) (now : Time) (ts : TokenStore) (o : Validated) (v : V)
      → Issuing
          (generate_token crypto hmac_secret random)
          now
          ts
          (exchanged crypto hmac_secret random now ts (o, v)).0
  exchanged-Issuing random now ts (invalid e) v = refused 401 _ (omega arith) refl refl
  exchanged-Issuing random now ts (valid claims) v =
      issue-Issuing now (generate_token crypto hmac_secret random) ts

  tested :
      (b : Bool) (status : ℕ) (msg : Text) (generated : Option Text) (now : Time) (ts : TokenStore)
      (v : V) (rest : (Response × TokenStore) × V)
      → status ≢ 200
      → Issuing generated now ts rest.0
      → Issuing generated now ts (if b then ((write_error status msg, ts), v) else rest).0
  tested true status msg generated now ts v rest h i = refused status msg h refl refl
  tested false status msg generated now ts v rest h i = i

  -- Whatever the request and the validator, the handler fails and leaves the store as it was, or
  -- sends the token that was generated and stores it for an hour.
  pub token_exchange_handler-Issuing :
      (validator : Option (JwtValidator V)) (random : Option (List ℕ)) (now : Time) (r : Request)
      (ts : TokenStore) (v : V)
      → Issuing
          (generate_token crypto hmac_secret random)
          now
          ts
          (token_exchange_handler validator random now r ts v).0
  unfolding token_exchange_handler
  token_exchange_handler-Issuing none random now r ts v = refused 501 _ (omega arith) refl refl
  token_exchange_handler-Issuing (some validate) random now r ts v =
      let (o, v') = validate (form_value r (codes "jwt")) v in
      let grant = form_value r (codes "grant_type") in
      let id = exchange_client_id r in
      tested (not (grant == codes "client_credentials")) 400 _ _ now ts v _ (omega arith) (
        tested (id == []) 400 _ _ now ts v _ (omega arith) (
          tested (not (id == expected_client_id)) 401 _ _ now ts v _ (omega arith) (
            tested (form_value r (codes "jwt") == []) 400 _ _ now ts v _ (omega arith)
              (exchanged-Issuing random now ts o v'))))

  exchanged-valid :
      (random : Option (List ℕ)) (now : Time) (ts : TokenStore) (o : Validated) (v : V)
      → (exchanged crypto hmac_secret random now ts (o, v)).0.0.status ≡ 200
      → (claims : JwtClaims) × (o ≡ valid claims)
  unfolding write_error
  exchanged-valid random now ts (invalid e) v h = absurd (omega arith)
  exchanged-valid random now ts (valid claims) v h = (claims, refl)

  -- A success needs a validator that accepts the JWT of the form, the expected client, and the
  -- grant client_credentials.
  pub exchange_needs :
      (validator : Option (JwtValidator V)) (random : Option (List ℕ)) (now : Time) (r : Request)
      (ts : TokenStore) (v : V)
      → (token_exchange_handler validator random now r ts v).0.0.status ≡ 200
      → (validate : JwtValidator V) × (claims : JwtClaims) × (validator ≡ some validate)
        × ((validate (form_value r (codes "jwt")) v).0 ≡ valid claims)
        × (exchange_client_id r ≡ expected_client_id)
        × (expected_client_id ≢ [])
        × (form_value r (codes "jwt") ≢ [])
        × (form_value r (codes "grant_type") ≡ codes "client_credentials")
  unfolding token_exchange_handler write_error
  exchange_needs none random now r ts v h = absurd (omega arith)
  exchange_needs (some validate) random now r ts v h =
      let jwt = form_value r (codes "jwt") in
      let grant = eq_iff (form_value r (codes "grant_type")) (codes "client_credentials") in
      let none_given = eq_iff (exchange_client_id r) [] in
      let expected = eq_iff (exchange_client_id r) expected_client_id in
      let no_jwt = eq_iff jwt [] in
      let reached : (exchanged crypto hmac_secret random now ts (validate jwt v)).0.0.status ≡ 200 =
        ground (arith, grant, none_given, expected, no_jwt) in
      let (o, v') = validate jwt v in
      let (claims, accepted) = exchanged-valid random now ts o v' reached in
      (
        validate,
        claims,
        refl,
        accepted,
        ground (arith, grant, none_given, expected, no_jwt),
        ground (arith, grant, none_given, expected, no_jwt),
        ground (arith, grant, none_given, expected, no_jwt),
        ground (arith, grant, none_given, expected, no_jwt),
      )
