-- ===== src/Api/Oauth.antt =====
-- internal/api/auth.go: `OAuthTokenHandler`, POST /oauth/token.
pub mod Laws
use headtotails.Prelude.{
  ℕ, ◌+◌, ◌≡◌, refl, Bool, true, false, not, ◌&&◌, ◌||◌, Option, none, some, List, [], ◌∷◌, ◌++◌,
  if◌then◌else◌,
}
use headtotails.Text.{Text, codes, ◌==◌}
use headtotails.Time.{Time, hour}
use headtotails.Api.Http.{
  Request, form_value, Response, OauthTokenResponse, token_json, write_json, write_error,
}
use headtotails.Api.TokenStore.{TokenStore, TokenEntry, store}

-- `oauthTokenTTL`.
abbrev pub oauth_token_ttl : ℕ
oauth_token_ttl = hour

-- What `generateToken` takes from packages crypto/hmac, crypto/sha256 and encoding/base64: the
-- unpadded URL encoding, and the MAC of a message under a key.
pub record Crypto : Type 0 where
  pub encode : List ℕ → Text
  pub mac : Text → Text → List ℕ

-- `nonce` is what `rand.Read` delivers, `none` if it fails.
unfoldable pub generate_token : Crypto → Text → Option (List ℕ) → Option Text
generate_token crypto hmac_secret none = none
generate_token crypto hmac_secret (some nonce) =
    let nonce64 = crypto.encode nonce in
    some (nonce64 ++ b'.' ∷ crypto.encode (crypto.mac hmac_secret nonce64))

-- The credentials of the form body.
abbrev form_credentials : Request → Option (Text × Text)
form_credentials r =
    let id = form_value r (codes "client_id") in
    let secret = form_value r (codes "client_secret") in
    if r.form_error
    then none
    else if not (id == []) && not (secret == [])
    then some (id, secret)
    else none

-- Basic Auth first, if it names a client.
abbrev basic_or_form : Request → Option (Text × Text) → Option (Text × Text)
basic_or_form r none = form_credentials r
basic_or_form r (some (id, secret)) =
    if not (id == []) then some (id, secret) else form_credentials r

unfoldable pub parse_oauth_credentials : Request → Option (Text × Text)
parse_oauth_credentials r = basic_or_form r r.basic_auth

pub record OauthConfig : Type 0 where
  pub client_id : Text
  pub client_secret : Text
  pub hmac_secret : Text

-- The end of both handlers that issue a token: it is stored, and sent.
unfoldable pub issue : Time → Option Text → TokenStore → Response × TokenStore
issue now none ts = (write_error 500 (codes "failed to generate token"), ts)
issue now (some tok) ts = (
  write_json 200
      (token_json (record { access_token = tok; token_type = codes "Bearer"; expires_in = 3600 })),
  store ts tok (record { expiry = now + oauth_token_ttl }),
)

abbrev pub answer_credentials :
    OauthConfig
    → Crypto
    → Option (List ℕ)
    → Time
    → Request
    → TokenStore
    → Option (Text × Text)
    → Response × TokenStore
answer_credentials cfg crypto random now r ts none =
    (write_error 400 (codes "missing credentials"), ts)
answer_credentials cfg crypto random now r ts (some (id, secret)) =
    let grant_type = form_value r (codes "grant_type") in
    if grant_type == []
    then (write_error 400 (codes "missing grant_type"), ts)
    else if not (grant_type == codes "client_credentials")
    then (
      write_error 400 (codes "unsupported grant_type; only client_credentials is supported"),
      ts,
    )
    else if not (id == cfg.client_id) || not (secret == cfg.client_secret)
    then (write_error 401 (codes "invalid client credentials"), ts)
    else issue now (generate_token crypto cfg.hmac_secret random) ts

unfoldable pub oauth_token_handler :
    OauthConfig → Crypto → Option (List ℕ) → Time → Request → TokenStore → Response × TokenStore
unfolding parse_oauth_credentials
oauth_token_handler cfg crypto nonce now r ts =
    answer_credentials cfg crypto nonce now r ts (parse_oauth_credentials r)
