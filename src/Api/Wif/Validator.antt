-- ===== src/Api/Wif/Validator.antt =====
-- `OIDCValidator`: a JWT is checked against the keys of its issuer, which are cached for an hour.
-- What the issuer answers over HTTP and the clock are arguments.
use headtotails.Prelude.{
  ℕ, zero, suc, ◌-◌, ◌/◌, Bool, true, false, not, ◌&&◌, ◌||◌, Option, none, some, List, [], ◌∷◌,
  ◌++◌, ℤ, pos, negsuc, ltb, nat_eq, if◌then◌else◌,
}
use headtotails.Text.{Text, codes, ◌==◌}
use headtotails.Text.Split.{split_n}
use headtotails.Time.{Time, second, hour}
use headtotails.Dict
use headtotails.Dict.{Dict}
use headtotails.Api.Wif.Jwt.{
  JwtClaims, PublicKey, JwtHeader, Jwk, Library, audience_contains, parse_rsa_public_key,
  parse_ec_public_key, verify_signature,
}

pub record JwksCache : Type 0 where
  pub keys : Dict PublicKey
  pub fetched_at : Time

pub record OidcValidator : Type 0 where
  pub issuer_url : Text
  pub audience : Text
  pub client_id : Text
  pub jwks : Option JwksCache

-- `strings.TrimRight(s, "/")`.
unfoldable pub trim_right_slash : Text → Text
trim_right_slash [] = []
trim_right_slash (c ∷ s) =
    let rest = trim_right_slash s in if rest == [] && nat_eq c b'/' then [] else c ∷ rest

unfoldable pub new_oidc_validator : Text → Text → Text → OidcValidator
unfolding trim_right_slash
new_oidc_validator issuer_url audience client_id = record {
  issuer_url = trim_right_slash issuer_url;
  audience = audience;
  client_id = client_id;
  jwks = none;
}

abbrev pub jwks_cache_ttl : ℕ
jwks_cache_ttl = hour

-- The errors, one for each return of one.
pub data WifError : Type 0 where
  malformed_jwt bad_header_encoding bad_header : WifError
  bad_request fetch_failed bad_body bad_json missing_jwks_uri : WifError
  bad_status : ℕ → WifError
  kid_not_found : Text → WifError
  bad_signature_encoding signature_failed bad_claims_encoding bad_claims token_expired : WifError
  issuer_mismatch audience_not_found : Text → WifError

pub data Result (A : Type 0) : Type 0 where
  ok : A → Result A
  err : WifError → Result A

infixl 5 ◌>>=◌ ◌>>◌
abbrev pub ◌>>=◌ : {A B : Type 0} → Result A → (A → Result B) → Result B
ok a >>= f = f a
err e >>= f = err e

abbrev pub ◌>>◌ : {B : Type 0} → Result (Unit {0}) → Result B → Result B
m >> k = m >>= λ _. k

abbrev pub or_error : {A : Type 0} → Option A → WifError → Result A
or_error none e = err e
or_error (some a) e = ok a

abbrev pub guard : Bool → WifError → Result (Unit {0})
guard true e = ok tt
guard false e = err e

-- A GET over HTTP: an error before there is a response, or a status with the body as it decodes.
pub data Fetched (A : Type 0) : Type 0 where
  no_request no_response : Fetched A
  response : ℕ → Result A → Fetched A

abbrev received : {A : Type 0} → Fetched A → Result A
received no_request = err bad_request
received no_response = err fetch_failed
received (response status body) = if not (nat_eq status 200) then err (bad_status status) else body

-- The issuer's answers: the `jwks_uri` of the discovery document at an URL, and the keys at one, of
-- which `none` is one that is no JWK.
pub record Issuer : Type 0 where
  pub discovery : Text → Fetched Text
  pub jwks : Text → Fetched (List (Option Jwk))

unfoldable pub discover_jwks_uri : Issuer → Text → Result Text
discover_jwks_uri issuer issuer_url = do
  uri ← received (issuer.discovery (issuer_url ++ codes "/.well-known/openid-configuration"))
  if uri == [] then err missing_jwks_uri else ok uri

-- One key of the set; a key of another kind, or that cannot be parsed, is skipped.
abbrev add_if : Text → Option PublicKey → Dict PublicKey → Dict PublicKey
add_if kid none keys = keys
add_if kid (some key) keys = Dict.put keys kid key

abbrev key_of : Library → Jwk → Option PublicKey
key_of lib jwk =
    if jwk.kty == codes "RSA"
    then parse_rsa_public_key lib jwk.n jwk.e
    else if jwk.kty == codes "EC"
    then parse_ec_public_key lib jwk.crv jwk.x jwk.y
    else none

unfoldable pub collect_keys : Library → Dict PublicKey → List (Option Jwk) → Dict PublicKey
collect_keys lib keys [] = keys
collect_keys lib keys (none ∷ raws) = collect_keys lib keys raws
collect_keys lib keys (some jwk ∷ raws) =
    collect_keys lib (add_if jwk.kid (key_of lib jwk) keys) raws

-- The keys that `refreshJWKS` stores.
unfoldable pub fetch_keys : Library → Issuer → Text → Result (Dict PublicKey)
unfolding discover_jwks_uri collect_keys
fetch_keys lib issuer issuer_url = do
  uri ← discover_jwks_uri issuer issuer_url
  raws ← received (issuer.jwks uri)
  ok (collect_keys lib Dict.empty raws)

-- `refreshJWKS`: a failure keeps the cache as it was.
abbrev pub refreshed :
    OidcValidator → Time → Result (Dict PublicKey) → Result (Unit {0}) × OidcValidator
refreshed v now (err e) = (err e, v)
refreshed v now (ok keys) =
    (ok tt, record v { jwks = some (record { keys = keys; fetched_at = now }) })

unfoldable pub refresh_jwks :
    Library → Issuer → Time → OidcValidator → Result (Unit {0}) × OidcValidator
unfolding fetch_keys
refresh_jwks lib issuer now v = refreshed v now (fetch_keys lib issuer v.issuer_url)

-- A key of the cache, if it was fetched less than an hour ago.
abbrev pub cached_key : Time → Text → Option JwksCache → Option PublicKey
cached_key now kid none = none
cached_key now kid (some c) =
    if ltb (now - c.fetched_at) jwks_cache_ttl then Dict.get c.keys kid else none

abbrev pub key_in : Text → Option JwksCache → Result PublicKey
key_in kid none = err (kid_not_found kid)
key_in kid (some c) = or_error (Dict.get c.keys kid) (kid_not_found kid)

abbrev pub after_refresh :
    Text → Result (Unit {0}) × OidcValidator → Result PublicKey × OidcValidator
after_refresh kid (err e, v) = (err e, v)
after_refresh kid (ok _, v) = (key_in kid v.jwks, v)

abbrev or_refresh :
    Library
    → Issuer
    → Time
    → Text
    → OidcValidator
    → Option PublicKey
    → Result PublicKey × OidcValidator
or_refresh lib issuer fetched kid v (some key) = (ok key, v)
or_refresh lib issuer fetched kid v none = after_refresh kid (refresh_jwks lib issuer fetched v)

-- `now` is the time of the look in the cache, `fetched` the time of the refresh.
unfoldable pub get_key :
    Library → Issuer → Time → Time → Text → OidcValidator → Result PublicKey × OidcValidator
unfolding refresh_jwks
get_key lib issuer now fetched kid v =
    or_refresh lib issuer fetched kid v (cached_key now kid v.jwks)

-- Seconds since 1970-01-01T00:00:00Z.
abbrev pub unix : Time → ℕ
unix t = t / second - 62135596800

-- `claims.ExpiresAt != 0 && now > claims.ExpiresAt`.
abbrev pub is_expired : ℕ → ℤ → Bool
is_expired now (pos zero) = false
is_expired now (pos (suc n)) = ltb (suc n) now
is_expired now (negsuc n) = true

-- Steps 3 to 5 of `Validate`, with the key at hand.
unfoldable pub check_jwt :
    Library → OidcValidator → Time → JwtHeader → PublicKey → Text → Text → Text → Result JwtClaims
check_jwt lib v now header key head payload signature = do
  sig_bytes ← or_error (lib.decode signature) bad_signature_encoding
  guard (verify_signature lib header.alg key (head ++ b'.' ∷ payload) sig_bytes) signature_failed
  claims_json ← or_error (lib.decode payload) bad_claims_encoding
  claims ← or_error (lib.claims claims_json) bad_claims
  guard (not (is_expired (unix now) claims.expires_at)) token_expired
  guard (claims.issuer == v.issuer_url) (issuer_mismatch claims.issuer)
  guard (v.audience == [] || audience_contains claims v.audience) (audience_not_found v.audience)
  ok claims

-- Step 1: the parts and the header.
unfoldable pub parse_header : Library → Text → Result JwtHeader
parse_header lib head = do
  header_json ← or_error (lib.decode head) bad_header_encoding
  or_error (lib.header header_json) bad_header

-- The three instants at which the clock is read.
pub record Instants : Type 0 where
  pub looked : Time
  pub fetched : Time
  pub validated : Time

abbrev pub with_key :
    Library
    → Instants
    → JwtHeader
    → Text
    → Text
    → Text
    → Result PublicKey × OidcValidator
    → Result JwtClaims × OidcValidator
with_key lib at header head payload signature (err e, v) = (err e, v)
with_key lib at header head payload signature (ok key, v) =
    (check_jwt lib v at.validated header key head payload signature, v)

abbrev pub with_header :
    Library
    → Issuer
    → Instants
    → Text
    → Text
    → Text
    → OidcValidator
    → Result JwtHeader
    → Result JwtClaims × OidcValidator
with_header lib issuer at head payload signature v (err e) = (err e, v)
with_header lib issuer at head payload signature v (ok header) =
    with_key lib at header head payload signature
      (get_key lib issuer at.looked at.fetched header.kid v)

abbrev pub with_parts :
    Library → Issuer → Instants → OidcValidator → List Text → Result JwtClaims × OidcValidator
with_parts lib issuer at v (head ∷ payload ∷ signature ∷ []) =
    with_header lib issuer at head payload signature v (parse_header lib head)
with_parts lib issuer at v _ = (err malformed_jwt, v)

unfoldable pub validate :
    Library → Issuer → Instants → Text → OidcValidator → Result JwtClaims × OidcValidator
unfolding get_key check_jwt parse_header
validate lib issuer at raw_jwt v = with_parts lib issuer at v (split_n b'.' 3 raw_jwt)
