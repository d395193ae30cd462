-- ===== src/Api/Wif/Validate.antt =====
-- `Validate`: what an accepted JWT has been checked for, and which keys stay in the cache.
use headtotails.Prelude.{
  ℕ, ◌≡◌, refl, sym, subst, ap, ◌∙◌, ◌⊎◌, Bool, true, false, not, ◌||◌, some, List, [], ◌∷◌, ◌++◌,
  arith,
}
use headtotails.Text.{Text, ◌==◌, eq_iff}
use headtotails.Text.Split.{split_n}
use headtotails.Api.Wif.Jwt.{
  JwtClaims, PublicKey, JwtHeader, Library, audience_contains, verify_signature,
}
use headtotails.Api.Wif.Validator.{
  OidcValidator, WifError, Result, ok, err, ◌>>◌, guard, token_expired, issuer_mismatch,
  audience_not_found, Issuer, is_expired, unix, cached_key, get_key, check_jwt, parse_header,
  Instants, with_key, with_header, with_parts, validate,
}
use headtotails.Api.Wif.Acceptance.{
  or_error-ok, guard-ok, Signed, verify_signature-Signed, IsCurrent, is_expired-IsCurrent,
  IsTrusted, get_key-IsTrusted, get_key-same,
}

three_guards :
    {A : Type 0} (t1 t2 t3 : Bool) (e1 e2 e3 : WifError) (a b : A)
    → (guard t1 e1 >> (guard t2 e2 >> (guard t3 e3 >> ok a))) ≡ ok b
    → (t1 ≡ true) × (t2 ≡ true) × (t3 ≡ true) × (a ≡ b)
three_guards true true true e1 e2 e3 a b h = (refl, refl, refl, ground (arith, h))
three_guards true true false e1 e2 e3 a b h = absurd (cc)
three_guards true false t3 e1 e2 e3 a b h = absurd (cc)
three_guards false t2 t3 e1 e2 e3 a b h = absurd (cc)

-- The parts of an accepted JWT, and what holds of them.
pub record Accepted (lib : Library) (issuer : Issuer) (at : Instants) (raw : Text)
    (v : OidcValidator) (claims : JwtClaims) : Type 0 where
  pub head : Text
  pub payload : Text
  pub signature : Text
  pub header : JwtHeader
  pub key : PublicKey
  pub sig_bytes : List ℕ
  pub parts : split_n b'.' 3 raw ≡ head ∷ payload ∷ signature ∷ []
  pub header_read : parse_header lib head ≡ ok header
  pub trusted : IsTrusted lib issuer at.looked header.kid v key
  pub sig_read : lib.decode signature ≡ some sig_bytes
  pub signed : Signed lib header.alg key (head ++ b'.' ∷ payload) sig_bytes
  pub claims_read :
      (json : List ℕ) × (lib.decode payload ≡ some json) × (lib.claims json ≡ some claims)
  pub current : IsCurrent at.validated claims.expires_at
  pub issued : claims.issuer ≡ v.issuer_url
  pub addressed : (v.audience ≡ []) ⊎ (audience_contains claims v.audience ≡ true)

module _ (lib : Library) (issuer : Issuer) (at : Instants) (raw : Text) (v : OidcValidator)
    (claims : JwtClaims) where
  -- What the last step of the checks establishes.
  abbrev Claimed : JwtClaims → Type 0
  Claimed c =
      IsCurrent at.validated c.expires_at
      × (c.issuer ≡ v.issuer_url)
      × ((v.audience ≡ []) ⊎ (audience_contains c v.audience ≡ true))

  claimed :
      (c : JwtClaims)
      → (guard (not (is_expired (unix at.validated) c.expires_at)) token_expired
          >> (guard (c.issuer == v.issuer_url) (issuer_mismatch c.issuer)
              >> (guard
                    (v.audience == [] || audience_contains c v.audience)
                    (audience_not_found v.audience)
                  >> ok c)))
        ≡ ok claims
      → (c ≡ claims) × Claimed claims
  claimed c h =
      let (p, q, a, e) =
        three_guards (not (is_expired (unix at.validated) c.expires_at)) (c.issuer == v.issuer_url)
          (v.audience == [] || audience_contains c v.audience) _ _ _ c claims h in
      (
        e,
        subst Claimed e (
          is_expired-IsCurrent at.validated c.expires_at p,
          (eq_iff c.issuer v.issuer_url).0 q,
          ground (arith, a, eq_iff v.audience []),
        ),
      )

  module _ (head payload signature : Text)
      (p : split_n b'.' 3 raw ≡ head ∷ payload ∷ signature ∷ []) where
    checked :
        (header : JwtHeader) (key : PublicKey)
        → parse_header lib head ≡ ok header
        → IsTrusted lib issuer at.looked header.kid v key
        → check_jwt lib v at.validated header key head payload signature ≡ ok claims
        → Accepted lib issuer at raw v claims
    unfolding check_jwt
    checked header key q trusted h =
        let (sig, p1, h1) = or_error-ok (lib.decode signature) _ _ claims h in
        let (p2, h2) =
          guard-ok (verify_signature lib header.alg key (head ++ b'.' ∷ payload) sig) _ _ claims
            h1 in
        let (json, p3, h3) = or_error-ok (lib.decode payload) _ _ claims h2 in
        let (c, p4, h4) = or_error-ok (lib.claims json) _ _ claims h3 in
        let (e, (current, issued, addressed)) = claimed c h4 in
        record {
          head = head;
          payload = payload;
          signature = signature;
          header = header;
          key = key;
          sig_bytes = sig;
          parts = p;
          header_read = q;
          trusted = trusted;
          sig_read = p1;
          signed = verify_signature-Signed lib header.alg key (head ++ b'.' ∷ payload) sig p2;
          claims_read = (json, p3, p4 ∙ ap some e);
          current = current;
          issued = issued;
          addressed = addressed;
        }

    -- The look-up of a key changes the cache alone, which the checks do not read.
    check_jwt-same :
        (header : JwtHeader) (key : PublicKey) (v' : OidcValidator)
        → v'.issuer_url ≡ v.issuer_url
        → v'.audience ≡ v.audience
        → check_jwt lib v' at.validated header key head payload signature
          ≡ check_jwt lib v at.validated header key head payload signature
    unfolding check_jwt
    check_jwt-same header key v' p q = rw (p, q) refl

    with_key-Accepted :
        (header : JwtHeader) (x : Result PublicKey × OidcValidator)
        → parse_header lib head ≡ ok header
        → get_key lib issuer at.looked at.fetched header.kid v ≡ x
        → (with_key lib at header head payload signature x).0 ≡ ok claims
        → Accepted lib issuer at raw v claims
    with_key-Accepted header (err e, v') q k h = absurd (cc)
    with_key-Accepted header (ok key, v') q k h =
        let (same_issuer, same_audience) =
          get_key-same lib issuer at.looked at.fetched header.kid v in
        checked header key q
          (get_key-IsTrusted lib issuer at.looked at.fetched header.kid v
            (cached_key at.looked header.kid v.jwks) key refl (ap (λ y. y.0) k))
          (sym (
              check_jwt-same header key v' (ap (λ y. y.1.issuer_url) (sym k) ∙ same_issuer)
                (ap (λ y. y.1.audience) (sym k) ∙ same_audience))
            ∙ h)

    with_header-Accepted :
        (o : Result JwtHeader)
        → parse_header lib head ≡ o
        → (with_header lib issuer at head payload signature v o).0 ≡ ok claims
        → Accepted lib issuer at raw v claims
    with_header-Accepted (err e) q h = absurd (cc)
    with_header-Accepted (ok header) q h =
        with_key-Accepted header (get_key lib issuer at.looked at.fetched header.kid v) q refl h

  with_parts-Accepted :
      (parts : List Text)
      → split_n b'.' 3 raw ≡ parts
      → (with_parts lib issuer at v parts).0 ≡ ok claims
      → Accepted lib issuer at raw v claims
  with_parts-Accepted (head ∷ payload ∷ signature ∷ []) p h =
      with_header-Accepted head payload signature p (parse_header lib head) refl h
  with_parts-Accepted [] p h = absurd (cc)
  with_parts-Accepted (_ ∷ []) p h = absurd (cc)
  with_parts-Accepted (_ ∷ _ ∷ []) p h = absurd (cc)
  with_parts-Accepted (_ ∷ _ ∷ _ ∷ _ ∷ _) p h = absurd (cc)

  -- A JWT that `Validate` accepts has three parts; its signature is verified, over the text of the
  -- first two, by a key that the cache holds since less than an hour or that the issuer publishes
  -- now, and by the algorithm for that kind of key, whatever the header says; and its claims are
  -- the second part: not expired, made by the configured issuer and for the configured audience.
  pub validate-Accepted :
      (validate lib issuer at raw v).0 ≡ ok claims → Accepted lib issuer at raw v claims
  unfolding validate
  validate-Accepted h = with_parts-Accepted (split_n b'.' 3 raw) refl h
