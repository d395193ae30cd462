-- ===== src/Tests/Federation.antt =====
-- A JWT of an issuer with one key of kind RSA.
use headtotails.Prelude.{◌%◌, ◌^◌, ◌≡◌, ◌≢◌, refl, true, false, none, some, [], ◌∷◌, arith, pos}
use headtotails.Text.{codes, ◌==◌}
use headtotails.Text.Split.{split_n}
use headtotails.Dict
use headtotails.Dict.{get-put}
use headtotails.Api.Wif.Jwt.{
  JwtClaims, one, rsa, Jwk, Library, parse_rsa_public_key, set_bytes, exponent, audience_contains,
  verify_signature,
}
use headtotails.Api.Wif.Validator.{
  JwksCache, OidcValidator, ok, response, Issuer, fetch_keys, get_key, key_in, Instants, validate,
}
use headtotails.Api.Wif.Validate.{Accepted, validate-Accepted}
use headtotails.Api.Wif.Caching.{get_key-again}
use headtotails.Api.Http.{Request, value_of, write_json}
use headtotails.Api.TokenStore.{new_token_store}
use headtotails.Api.Oauth.{Crypto, generate_token, issue}
use headtotails.Api.Wif.Exchange.{exchange_client_id, token_exchange_handler}
use headtotails.Api.Wif.Grants.{oidc_jwt_validator, exchange-Accepted}
use headtotails.Tests.{request}
use headtotails.Api.Wif.Exponent.{exponent-mod}
use headtotails.Api.Wif.Threads.{
  System, Reach, start, later, miss, fetched, stored, read, looking, fetching, storing, reading,
  returned, update,
}
use headtotails.Api.Wif.Threads.Safety.{Published, Reach-Published}

abbrev claims : JwtClaims
claims = record {
  issuer = codes "i";
  subject = codes "s";
  audience = one (codes "a");
  expires_at = pos 0;
  issued_at = pos 0;
}

abbrev library : Library
library = record {
  decode = λ s. some s;
  header = λ json. some (record { alg = codes "RS256"; kid = codes "1" });
  claims = λ json. some claims;
  bytes = λ s. s;
  sha256 = λ s. s;
  verify_rsa = λ n e digest sig. true;
  verify_ec = λ c x y digest sig. false;
}

abbrev jwk : Jwk
jwk = record {
  kty = codes "RSA";
  kid = codes "1";
  n = codes "n";
  e = codes "e";
  crv = [];
  x = [];
  y = [];
}

abbrev issuer : Issuer
issuer = record {
  discovery = λ url. response 200 (ok (codes "u"));
  jwks = λ url. response 200 (ok (some jwk ∷ []));
}

abbrev v : OidcValidator
v = record { issuer_url = codes "i"; audience = codes "a"; client_id = codes "c"; jwks = none }

abbrev at : Instants
at = record { looked = 1; fetched = 2; validated = 3 }

abbrev cache : JwksCache
cache = record { keys = Dict.put Dict.empty (codes "1") (rsa b'n' b'e'); fetched_at = 2 }

key_found : (get_key library issuer 1 2 (codes "1") v).0 ≡ ok (rsa b'n' b'e')
unfolding get_key ◌==◌ parse_rsa_public_key
key_found = rw get-put refl

key_cached : (get_key library issuer 1 2 (codes "1") v).1.jwks ≡ some cache
unfolding get_key ◌==◌ parse_rsa_public_key
key_cached = refl

get_key-again_example :
    get_key library issuer 4 5 (codes "1") (get_key library issuer 1 2 (codes "1") v).1
    ≡ (ok (rsa b'n' b'e'), (get_key library issuer 1 2 (codes "1") v).1)
get_key-again_example =
    get_key-again library issuer issuer 1 2 4 5 (codes "1") v (rsa b'n' b'e') cache key_found
      key_cached (ground arith)

jwt_accepted : (validate library issuer at (codes "h.p.s") v).0 ≡ ok claims
unfolding validate get_key ◌==◌ split_n audience_contains verify_signature parse_rsa_public_key
jwt_accepted = rw get-put refl

validate-Accepted_example : Accepted library issuer at (codes "h.p.s") v claims
validate-Accepted_example =
    validate-Accepted library issuer at (codes "h.p.s") v claims jwt_accepted

exponent-mod_example :
    exponent (0 % 2 ^ 64) (1 ∷ 0 ∷ 1 ∷ []) ≡ set_bytes 0 (1 ∷ 0 ∷ 1 ∷ []) % 2 ^ 64
exponent-mod_example = exponent-mod (1 ∷ 0 ∷ 1 ∷ []) 0

-- One request on a new validator, whose issuer answers with one key.
abbrev one_answered : System
one_answered = record {
  shared = record { cache = some cache; heard = cache.keys ∷ [] };
  pc =
      update
        (update
          (update (update (λ i. looking (codes "1")) 0 (fetching (codes "1"))) 0
            (storing (codes "1") cache.keys))
          0 (reading (codes "1")))
        0 (returned (codes "1") (key_in (codes "1") (some cache)));
}

answered : Reach library (codes "i") one_answered
unfolding fetch_keys ◌==◌ parse_rsa_public_key
answered =
    later 0
      (later 0
        (later 0 (later 0 (start (λ i. codes "1")) (miss 1 refl)) (fetched issuer cache.keys refl))
        (stored 2))
      (read cache refl)

key_returned : one_answered.pc 0 ≡ returned (codes "1") (ok (rsa b'n' b'e'))
unfolding ◌==◌
key_returned = rw get-put refl

Reach-Published_example : Published (cache.keys ∷ []) (codes "1") (rsa b'n' b'e')
Reach-Published_example = (Reach-Published answered 0).1 (codes "1") (rsa b'n' b'e') key_returned

-- A client that presents the JWT.
abbrev exchange : Request
exchange = record request {
  form = (codes "grant_type", codes "client_credentials") ∷ (codes "jwt", codes "h.p.s") ∷ [];
}

abbrev crypto : Crypto
crypto = record { encode = λ bytes. bytes; mac = λ key msg. [] }

exchange_succeeds :
    (token_exchange_handler
      (codes "hm")
      (codes "id")
      crypto
      (some (oidc_jwt_validator library issuer at (λ e. [])))
      (some (codes "abc"))
      5
      exchange
      new_token_store
      v).0.0.status
    ≡ 200
unfolding token_exchange_handler oidc_jwt_validator generate_token issue write_json value_of
    validate get_key ◌==◌ split_n audience_contains verify_signature parse_rsa_public_key
exchange_succeeds = rw get-put refl

exchange-Accepted_example :
    ((claims : JwtClaims) × Accepted library issuer at (codes "h.p.s") v claims)
    × (codes "id" ≡ codes "id")
    × (codes "id" ≢ [])
    × (codes "client_credentials" ≡ codes "client_credentials")
unfolding value_of ◌==◌ exchange_client_id
exchange-Accepted_example =
    exchange-Accepted library issuer at (λ e. []) (codes "hm") (codes "id") crypto
      (some (codes "abc")) 5 exchange new_token_store v exchange_succeeds
