-- ===== src/Api/Wif/Caching.antt =====
-- The cache of keys of `getKey`, over two look-ups.
use headtotails.Prelude.{
  ◌-◌, ◌≡◌, refl, sym, ap, ◌∙◌, inl, inr, true, Option, none, some, ltb, arith, Option-cases,
}
use headtotails.Text.{Text}
use headtotails.Time.{Time}
use headtotails.Dict
use headtotails.Dict.{Dict}
use headtotails.Api.Wif.Jwt.{PublicKey, Library}
use headtotails.Api.Wif.Validator.{
  JwksCache, OidcValidator, jwks_cache_ttl, Result, ok, err, Issuer, cached_key, fetch_keys,
  get_key,
}
use headtotails.Api.Wif.Acceptance.{cached_key-some, looked_up, get_key-cached, get_key-looked_up}

-- The cache of the validator has the key.
abbrev pub Holds : Text → PublicKey → OidcValidator → Type 0
Holds kid key v = (c : JwksCache) × (v.jwks ≡ some c) × (Dict.get c.keys kid ≡ some key)

cached_key-some_of :
    (now : Time) (kid : Text) (c : JwksCache) (key : PublicKey)
    → ltb (now - c.fetched_at) jwks_cache_ttl ≡ true
    → Dict.get c.keys kid ≡ some key
    → cached_key now kid (some c) ≡ some key
cached_key-some_of now kid c key fresh p = ground (arith, fresh, p)

module _ (lib : Library) (issuer : Issuer) (now fetched : Time) (kid : Text)
    (v : OidcValidator) where
  looked_up-Holds :
      (keys : Result (Dict PublicKey)) (key : PublicKey)
      → (looked_up lib issuer now fetched kid v keys).0 ≡ ok key
      → Holds kid key (looked_up lib issuer now fetched kid v keys).1
  looked_up-Holds (err e) key h = absurd (cc)
  looked_up-Holds (ok keys) key h = elim (Option-cases (Dict.get keys kid)) [
    | inl p ↦ absurd (ground (arith, h, p))
    | inr (k, p) ↦ (record { keys = keys; fetched_at = fetched }, refl, ground (arith, h, p))
  ]

  found :
      (o : Option PublicKey) (key : PublicKey)
      → cached_key now kid v.jwks ≡ o
      → (get_key lib issuer now fetched kid v).0 ≡ ok key
      → Holds kid key (get_key lib issuer now fetched kid v).1
  found none key p h =
      let e =
        get_key-looked_up lib issuer now fetched kid v (fetch_keys lib issuer v.issuer_url) p
          refl in
      rw e (looked_up-Holds (fetch_keys lib issuer v.issuer_url) key (ap (λ r. r.0) (sym e) ∙ h))
  found (some k) key p h =
      let e = get_key-cached lib issuer now fetched kid v k p in
      let same = ap (λ r. r.0) (sym e) ∙ h in
      let (c, q, fresh, got) = cached_key-some now kid v.jwks key (ground (arith, p, same)) in
      rw e (c, q, got)

held :
    (kid : Text) (key : PublicKey) (j : Option JwksCache) (c c' : JwksCache)
    → j ≡ some c'
    → Dict.get c'.keys kid ≡ some key
    → j ≡ some c
    → Dict.get c.keys kid ≡ some key
held kid key j c c' p got same = cc

-- A key that was found is in the cache, so that until the cache is an hour old the same key is
-- found again, whatever the issuer would answer then, and the validator is left as it is.
pub get_key-again :
    (lib : Library) (issuer later_issuer : Issuer) (now fetched later later_fetched : Time)
    (kid : Text) (v : OidcValidator) (key : PublicKey) (c : JwksCache)
    → (get_key lib issuer now fetched kid v).0 ≡ ok key
    → (get_key lib issuer now fetched kid v).1.jwks ≡ some c
    → ltb (later - c.fetched_at) jwks_cache_ttl ≡ true
    → get_key lib later_issuer later later_fetched kid (get_key lib issuer now fetched kid v).1
      ≡ (ok key, (get_key lib issuer now fetched kid v).1)
get_key-again lib issuer later_issuer now fetched later later_fetched kid v key c h same fresh =
    let (c', p, got) = found lib issuer now fetched kid v (cached_key now kid v.jwks) key refl h in
    get_key-cached lib later_issuer later later_fetched kid (get_key lib issuer now fetched kid v).1
      key
      (rw same (
        cached_key-some_of later kid c key fresh
          (held kid key (get_key lib issuer now fetched kid v).1.jwks c c' p got same)))
