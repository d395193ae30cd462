-- ===== src/Api/Wif/Acceptance.antt =====
-- What a JWT that `Validate` accepts has been checked for.
use headtotails.Prelude.{
  ℕ, zero, suc, ◌≤◌, ◌-◌, ◌≡◌, refl, sym, ap, ◌∙◌, ◌⊎◌, inl, inr, Bool, true, false, not, Option,
  none, some, List, ℤ, pos, negsuc, ltb, arith, Bool-cases, Option-cases,
}
use headtotails.Text.{Text, codes, eq_iff}
use headtotails.Time.{Time}
use headtotails.Dict
use headtotails.Dict.{Dict}
use headtotails.Api.Wif.Jwt.{PublicKey, rsa, ec, Library, verify_signature}
use headtotails.Api.Wif.Validator.{
  JwksCache, OidcValidator, jwks_cache_ttl, WifError, Result, ok, err, ◌>>=◌, ◌>>◌, or_error, guard,
  Issuer, fetch_keys, cached_key, refreshed, after_refresh, refresh_jwks, get_key, is_expired, unix,
}

module _ {A B : Type 0} where
  pub or_error-ok :
      (o : Option A) (e : WifError) (f : A → Result B) (b : B)
      → (or_error o e >>= f) ≡ ok b
      → (a : A) × (o ≡ some a) × (f a ≡ ok b)
  or_error-ok none e f b h = absurd (cc)
  or_error-ok (some a) e f b h = (a, refl, h)

pub guard-ok :
    {B : Type 0} (t : Bool) (e : WifError) (m : Result B) (b : B)
    → (guard t e >> m) ≡ ok b
    → (t ≡ true) × (m ≡ ok b)
guard-ok true e m b h = (refl, h)
guard-ok false e m b h = absurd (cc)

-- The algorithm of the header goes with the kind of the key, and the key verifies the signature.
abbrev pub Signed : Library → Text → PublicKey → Text → List ℕ → Type 0
Signed lib alg (rsa n e) signed sig =
    (alg ≡ codes "RS256") × (lib.verify_rsa n e (lib.sha256 (lib.bytes signed)) sig ≡ true)
Signed lib alg (ec c x y) signed sig =
    (alg ≡ codes "ES256") × (lib.verify_ec c x y (lib.sha256 (lib.bytes signed)) sig ≡ true)

pub verify_signature-Signed :
    (lib : Library) (alg : Text) (key : PublicKey) (signed : Text) (sig : List ℕ)
    → verify_signature lib alg key signed sig ≡ true
    → Signed lib alg key signed sig
unfolding verify_signature
verify_signature-Signed lib alg (rsa n e) signed sig h =
    ground (arith, h, eq_iff alg (codes "RS256"), eq_iff alg (codes "ES256"))
verify_signature-Signed lib alg (ec c x y) signed sig h =
    ground (arith, h, eq_iff alg (codes "RS256"), eq_iff alg (codes "ES256"))

-- A token without the claim "exp" does not expire; one with it is good to that second, included.
abbrev pub IsCurrent : Time → ℤ → Type 0
IsCurrent now (pos n) = (n ≡ 0) ⊎ (unix now ≤ n)
IsCurrent now (negsuc n) = ⊥

pub is_expired-IsCurrent :
    (now : Time) (exp : ℤ) → not (is_expired (unix now) exp) ≡ true → IsCurrent now exp
is_expired-IsCurrent now (pos zero) h = inl refl
is_expired-IsCurrent now (pos (suc n)) h = inr (ground (arith, h))
is_expired-IsCurrent now (negsuc n) h = absurd (cc)

-- The key is in the cache, fetched less than an hour ago, or the issuer publishes it now.
abbrev pub IsTrusted : Library → Issuer → Time → Text → OidcValidator → PublicKey → Type 0
IsTrusted lib issuer now kid v key =
    ((c : JwksCache) × (v.jwks ≡ some c)
      × (ltb (now - c.fetched_at) jwks_cache_ttl ≡ true)
      × (Dict.get c.keys kid ≡ some key))
    ⊎ ((keys : Dict PublicKey) × (fetch_keys lib issuer v.issuer_url ≡ ok keys)
        × (Dict.get keys kid ≡ some key))

pub cached_key-some :
    (now : Time) (kid : Text) (j : Option JwksCache) (key : PublicKey)
    → cached_key now kid j ≡ some key
    → (c : JwksCache) × (j ≡ some c)
      × (ltb (now - c.fetched_at) jwks_cache_ttl ≡ true)
      × (Dict.get c.keys kid ≡ some key)
cached_key-some now kid none key h = absurd (cc)
cached_key-some now kid (some c) key h =
    elim (Bool-cases (ltb (now - c.fetched_at) jwks_cache_ttl)) [
      | inl fresh ↦ (c, refl, fresh, ground (arith, h, fresh))
      | inr stale ↦ absurd (ground (arith, h, stale))
    ]

module _ (lib : Library) (issuer : Issuer) (now fetched : Time) (kid : Text)
    (v : OidcValidator) where
  -- What a look-up that goes to the issuer ends with.
  abbrev pub looked_up : Result (Dict PublicKey) → Result PublicKey × OidcValidator
  looked_up keys = after_refresh kid (refreshed v fetched keys)

  pub get_key-cached :
      (key : PublicKey)
      → cached_key now kid v.jwks ≡ some key
      → get_key lib issuer now fetched kid v ≡ (ok key, v)
  unfolding get_key
  get_key-cached key p = rw p refl

  pub get_key-looked_up :
      (keys : Result (Dict PublicKey))
      → cached_key now kid v.jwks ≡ none
      → fetch_keys lib issuer v.issuer_url ≡ keys
      → get_key lib issuer now fetched kid v ≡ looked_up keys
  unfolding get_key refresh_jwks
  get_key-looked_up keys p q = rw (p, q) refl

  looked_up-IsTrusted :
      (keys : Result (Dict PublicKey)) (key : PublicKey)
      → fetch_keys lib issuer v.issuer_url ≡ keys
      → (looked_up keys).0 ≡ ok key
      → IsTrusted lib issuer now kid v key
  looked_up-IsTrusted (err e) key q h = absurd (cc)
  looked_up-IsTrusted (ok keys) key q h = elim (Option-cases (Dict.get keys kid)) [
    | inl p ↦ absurd (ground (arith, h, p))
    | inr (k, p) ↦ inr (keys, q, ground (arith, h, p))
  ]

  pub get_key-IsTrusted :
      (o : Option PublicKey) (key : PublicKey)
      → cached_key now kid v.jwks ≡ o
      → (get_key lib issuer now fetched kid v).0 ≡ ok key
      → IsTrusted lib issuer now kid v key
  get_key-IsTrusted none key p h =
      looked_up-IsTrusted (fetch_keys lib issuer v.issuer_url) key refl
        (ap (λ r. r.0) (sym (get_key-looked_up (fetch_keys lib issuer v.issuer_url) p refl)) ∙ h)
  get_key-IsTrusted (some k) key p h =
      let got = ap (λ r. r.0) (sym (get_key-cached k p)) ∙ h in
      inl (cached_key-some now kid v.jwks key (ground (arith, p, got)))

  same_looked_up :
      (keys : Result (Dict PublicKey))
      → ((looked_up keys).1.issuer_url ≡ v.issuer_url) × ((looked_up keys).1.audience ≡ v.audience)
  same_looked_up (err e) = (refl, refl)
  same_looked_up (ok keys) = (refl, refl)

  -- The look-up of a key changes the cache at most.
  same :
      (o : Option PublicKey)
      → cached_key now kid v.jwks ≡ o
      → ((get_key lib issuer now fetched kid v).1.issuer_url ≡ v.issuer_url)
        × ((get_key lib issuer now fetched kid v).1.audience ≡ v.audience)
  same none p =
      rw (get_key-looked_up (fetch_keys lib issuer v.issuer_url) p refl)
        (same_looked_up (fetch_keys lib issuer v.issuer_url))
  same (some k) p = rw (get_key-cached k p) (refl, refl)

  pub get_key-same :
      ((get_key lib issuer now fetched kid v).1.issuer_url ≡ v.issuer_url)
      × ((get_key lib issuer now fetched kid v).1.audience ≡ v.audience)
  get_key-same = same (cached_key now kid v.jwks) refl
