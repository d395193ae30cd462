-- ===== src/Tests/Tokens.antt =====
-- Tokens: a request is answered, the store is purged, and the token that was sent is presented.
use headtotails.Prelude.{
  ℕ, ◌+◌, ◌≤◌, ◌≡◌, refl, ◌≢◌, ◌↔◌, ◌⊎◌, Option, none, some, List, [], ◌∷◌, arith, Among, pos,
}
use headtotails.Text.{Text, codes}
use headtotails.Time.{Time, hour}
use headtotails.Api.Http.{form_value}
use headtotails.Api.TokenStore.{TokenStore, new_token_store, store}
use headtotails.Api.Oauth.{Crypto, OauthConfig, generate_token, oauth_token_handler}
use headtotails.Api.Oauth.Laws.{Presents, oauth_issues_iff}
use headtotails.Api.Bearer.{extract_bearer_token, request_token, refusal}
use headtotails.Api.Bearer.Laws.{extract_bearer_token_lem}
use headtotails.Api.Wif.Jwt.{JwtClaims, other}
use headtotails.Api.Wif.Exchange.{valid, JwtValidator}
use headtotails.Api.Sessions.{Event, asks, purges, exchanges, new_server, run, InOrder}
use headtotails.Api.Sessions.Acceptance.{accepted_iff}
use headtotails.Tests.{request}

abbrev crypto : Crypto
crypto = record { encode = λ bytes. bytes; mac = λ key msg. [] }

abbrev cfg : OauthConfig
cfg = record { client_id = codes "id"; client_secret = codes "pw"; hmac_secret = codes "hm" }

abbrev random : Option (List ℕ)
random = some (codes "abc")

abbrev claims : JwtClaims
claims = record {
  issuer = [];
  subject = [];
  audience = other;
  expires_at = pos 0;
  issued_at = pos 0;
}

abbrev validator : JwtValidator Unit
validator jwt v = (valid claims, v)

abbrev events : List Event
events =
    record { time = 5; action = asks request random }
    ∷ record { time = 6; action = purges }
    ∷ record { time = 7; action = exchanges request random }
    ∷ []

abbrev key : Text
key = codes "hs-key"

events-InOrder : InOrder 0 events 8
events-InOrder = ground arith

accepted_iff_example :
    (refusal
        (run cfg crypto (some validator) (codes "id") events (new_server tt)).tokens
        key
        8
        request
      ≡ none)
    ↔ ((request_token request ≢ [])
        × ((request_token request ≡ key)
            ⊎ ((t : Time) × Among
                  (request_token request, t)
                  (run cfg crypto (some validator) (codes "id") events (new_server tt)).sent
                × (8 ≤ t + hour))))
accepted_iff_example =
    accepted_iff cfg crypto (some validator) (codes "id") events tt 0 8 key request events-InOrder

abbrev one_token : TokenStore
one_token = store new_token_store (codes "abc") (record { expiry = 10 })

extract_bearer_token_lem_example : extract_bearer_token request ≡ codes "abc"
extract_bearer_token_lem_example =
    extract_bearer_token_lem request (codes "Bearer") (codes "abc") refl (ground arith) refl

oauth_issues_iff_example :
    ((oauth_token_handler cfg crypto random 5 request new_token_store).0.status ≡ 200) ↔ (
      Presents request (codes "id") (codes "pw")
      × (form_value request (codes "grant_type") ≡ codes "client_credentials")
      × ((tok : Text) × (generate_token crypto (codes "hm") random ≡ some tok)))
oauth_issues_iff_example = oauth_issues_iff cfg crypto random 5 request new_token_store
