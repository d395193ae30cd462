-- ===== src/Api/Wif/Jwt.antt =====
-- Claims, public keys and signatures. Decoding of base64 and JSON and the cryptography are those
-- of Go's standard library: parameters, one for each function that is called.
use headtotails.Prelude.{
  ℕ, ◌+◌, ◌*◌, ◌%◌, ◌^◌, Bool, false, ◌||◌, Option, none, some, List, [], ◌∷◌, ℤ, if◌then◌else◌,
}
use headtotails.Text.{Text, codes, ◌==◌}

-- An element of a list in a claim, and the claim "aud": a text, a list, or anything else.
pub data AudienceItem : Type 0 where
  text : Text → AudienceItem
  other_item : AudienceItem

pub data Audience : Type 0 where
  one : Text → Audience
  many : List AudienceItem → Audience
  other : Audience

pub record JwtClaims : Type 0 where
  pub issuer : Text
  pub subject : Text
  pub audience : Audience
  pub expires_at : ℤ
  pub issued_at : ℤ

-- The loop over a list of audiences.
unfoldable pub has_item : Text → List AudienceItem → Bool
has_item aud [] = false
has_item aud (text s ∷ items) = s == aud || has_item aud items
has_item aud (other_item ∷ items) = has_item aud items

unfoldable pub audience_contains : JwtClaims → Text → Bool
unfolding has_item
audience_contains c aud = elim c.audience [
  | one v ↦ v == aud
  | many items ↦ has_item aud items
  | other ↦ false
]

pub data Curve : Type 0 where
  p256 p384 : Curve

-- The exponent of an RSA key is held by its 64 bits.
pub data PublicKey : Type 0 where
  rsa : ℕ → ℕ → PublicKey
  ec : Curve → ℕ → ℕ → PublicKey

pub record JwtHeader : Type 0 where
  pub alg : Text
  pub kid : Text

pub record Jwk : Type 0 where
  pub kty : Text
  pub kid : Text
  pub n : Text
  pub e : Text
  pub crv : Text
  pub x : Text
  pub y : Text

-- base64.RawURLEncoding.DecodeString, json.Unmarshal of a header and of claims, sha256.Sum256,
-- rsa.VerifyPKCS1v15 with SHA-256, and ecdsa.VerifyASN1; a nil error is `true`.
pub record Library : Type 0 where
  pub decode : Text → Option (List ℕ)
  pub header : List ℕ → Option JwtHeader
  pub claims : List ℕ → Option JwtClaims
  pub bytes : Text → List ℕ
  pub sha256 : List ℕ → List ℕ
  pub verify_rsa : ℕ → ℕ → List ℕ → List ℕ → Bool
  pub verify_ec : Curve → ℕ → ℕ → List ℕ → List ℕ → Bool

-- `new(big.Int).SetBytes(b)`: big-endian.
unfoldable pub set_bytes : ℕ → List ℕ → ℕ
set_bytes n [] = n
set_bytes n (b ∷ bs) = set_bytes (n * 256 + b) bs

-- The loop `e = e<<8 + int(b)` on 64 bits.
unfoldable pub exponent : ℕ → List ℕ → ℕ
exponent e [] = e
exponent e (b ∷ bs) = exponent ((e * 256 % 2 ^ 64 + b) % 2 ^ 64) bs

infixl 5 ◌>>=◌
abbrev ◌>>=◌ : {A B : Type 0} → Option A → (A → Option B) → Option B
none >>= f = none
some a >>= f = f a

unfoldable pub parse_rsa_public_key : Library → Text → Text → Option PublicKey
unfolding set_bytes exponent
parse_rsa_public_key lib n_b64 e_b64 = do
  n_bytes ← lib.decode n_b64
  e_bytes ← lib.decode e_b64
  some (rsa (set_bytes 0 n_bytes) (exponent 0 e_bytes))

unfoldable pub curve_of : Text → Option Curve
curve_of crv =
    if crv == codes "P-256" then some p256 else if crv == codes "P-384" then some p384 else none

unfoldable pub parse_ec_public_key : Library → Text → Text → Text → Option PublicKey
unfolding set_bytes curve_of
parse_ec_public_key lib crv x_b64 y_b64 = do
  curve ← curve_of crv
  x_bytes ← lib.decode x_b64
  y_bytes ← lib.decode y_b64
  some (ec curve (set_bytes 0 x_bytes) (set_bytes 0 y_bytes))

-- The cases of `verifySignature` on the kind of key; a nil error is `true`.
abbrev check_rsa : Library → PublicKey → Text → List ℕ → Bool
check_rsa lib (rsa n e) signed sig = lib.verify_rsa n e (lib.sha256 (lib.bytes signed)) sig
check_rsa lib (ec c x y) signed sig = false

abbrev check_ec : Library → PublicKey → Text → List ℕ → Bool
check_ec lib (rsa n e) signed sig = false
check_ec lib (ec c x y) signed sig = lib.verify_ec c x y (lib.sha256 (lib.bytes signed)) sig

unfoldable pub verify_signature : Library → Text → PublicKey → Text → List ℕ → Bool
verify_signature lib alg key signed sig =
    if alg == codes "RS256"
    then check_rsa lib key signed sig
    else if alg == codes "ES256"
    then check_ec lib key signed sig
    else false
