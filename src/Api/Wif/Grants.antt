-- ===== src/Api/Wif/Grants.antt =====
-- The exchange with the validator of internal/api/wif.go in the place of the interface.
use headtotails.Prelude.{ℕ, ◌≡◌, ◌≢◌, sym, subst, Option, none, some, List, []}
use headtotails.Text.{Text, codes}
use headtotails.Time.{Time}
use headtotails.Api.Http.{Request, form_value}
use headtotails.Api.TokenStore.{TokenStore}
use headtotails.Api.Oauth.{Crypto}
use headtotails.Api.Wif.Jwt.{JwtClaims, Library}
use headtotails.Api.Wif.Validator.{
  WifError, Result, ok, err, OidcValidator, Issuer, Instants, validate,
}
use headtotails.Api.Wif.Validate.{Accepted, validate-Accepted}
use headtotails.Api.Wif.Exchange.{
  Validated, valid, invalid, JwtValidator, exchange_client_id, token_exchange_handler,
  exchange_needs,
}

-- `Validate` as the interface has it: of an error, the handler takes the text.
abbrev as_validated :
    (WifError → Text) → Result JwtClaims × OidcValidator → Validated × OidcValidator
as_validated text_of (ok claims, v) = (valid claims, v)
as_validated text_of (err e, v) = (invalid (text_of e), v)

module _ (lib : Library) (issuer : Issuer) (at : Instants) (text_of : WifError → Text) where
  unfoldable pub oidc_jwt_validator : JwtValidator OidcValidator
  unfolding validate
  oidc_jwt_validator raw v = as_validated text_of (validate lib issuer at raw v)

  valid-ok :
      (r : Result JwtClaims × OidcValidator) (claims : JwtClaims)
      → (as_validated text_of r).0 ≡ valid claims
      → r.0 ≡ ok claims
  valid-ok (ok c, v) claims h = cc
  valid-ok (err e, v) claims h = absurd (cc)

  abbrev Says : Text → OidcValidator → JwtClaims → Option (JwtValidator OidcValidator) → Type 0
  Says jwt v claims none = ⊥
  Says jwt v claims (some w) = (w jwt v).0 ≡ valid claims

  -- A success of the token exchange needs a JWT that the issuer has signed with a key that it
  -- published or that is cached for less than an hour, that has not expired, and that names the
  -- issuer and, if one is set, the audience; and it needs the expected client and the grant
  -- client_credentials.
  pub exchange-Accepted :
      (hmac_secret expected_client_id : Text) (crypto : Crypto) (random : Option (List ℕ))
      (now : Time) (r : Request) (ts : TokenStore) (v : OidcValidator)
      → (token_exchange_handler hmac_secret expected_client_id crypto
          (some oidc_jwt_validator)
          random
          now
          r
          ts
          v).0.0.status
        ≡ 200
      → ((claims : JwtClaims) × Accepted lib issuer at (form_value r (codes "jwt")) v claims)
        × (exchange_client_id r ≡ expected_client_id)
        × (expected_client_id ≢ [])
        × (form_value r (codes "grant_type") ≡ codes "client_credentials")
  unfolding oidc_jwt_validator
  exchange-Accepted hmac_secret expected_client_id crypto random now r ts v h =
      let jwt = form_value r (codes "jwt") in
      let (w, claims, same, accepted, id, set, given, grant) =
        exchange_needs hmac_secret expected_client_id crypto (some oidc_jwt_validator) random now r
          ts v h in
      let is_ok : (validate lib issuer at jwt v).0 ≡ ok claims =
        valid-ok (validate lib issuer at jwt v) claims
          (subst (Says jwt v claims) (sym same) accepted) in
      ((claims, validate-Accepted lib issuer at jwt v claims is_ok), id, set, grant)
