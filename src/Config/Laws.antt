-- ===== src/Config/Laws.antt =====
-- `Load` and `validate` of internal/config/config.go.
use headtotails.Prelude.{
  ◌≡◌, refl, sym, subst, ◌↔◌, Bool, true, false, Option, none, some, List, [], ◌∷◌, All, arith,
  if◌then◌else◌,
}
use headtotails.Text.{Text, codes, eq_iff}
use headtotails.Text.Space.{trim_space, IsSpace, trim_space-eq-nil_iff}
use headtotails.Config.{
  Config, missing_if, missing_names, wif_missing_names, refuse_missing, validate, Loaded, config,
  failed, load,
}

abbrev pub IsBlank : Text → Type 0
IsBlank s = All IsSpace s

-- The credentials that make the service refuse to start when they are blank.
abbrev pub IsUsable : Config → Type 0
IsUsable c =
    ¬ IsBlank c.headscale_api_key
    × ¬ IsBlank c.oauth_client_id
    × ¬ IsBlank c.oauth_client_secret
    × ¬ IsBlank c.oauth_hmac_secret
    × (c.wif_enabled ≡ true → ¬ IsBlank c.wif_issuer_url × ¬ IsBlank c.wif_client_id)

missing_if-nil_iff :
    (value name : Text) (rest : List Text)
    → (missing_if value name rest ≡ []) ↔ (¬ IsBlank value × (rest ≡ []))
unfolding missing_if
missing_if-nil_iff value name rest =
    ground (arith, eq_iff (trim_space value) [], trim_space-eq-nil_iff value)

missing_names-nil_iff :
    (c : Config)
    → (missing_names c ≡ []) ↔ (
        ¬ IsBlank c.headscale_api_key
        × ¬ IsBlank c.oauth_client_id
        × ¬ IsBlank c.oauth_client_secret
        × ¬ IsBlank c.oauth_hmac_secret)
unfolding missing_names
missing_names-nil_iff c = (
  λ h.
      let (a, h1) = (missing_if-nil_iff _ _ _).0 h in
      let (b, h2) = (missing_if-nil_iff _ _ _).0 h1 in
      let (d, h3) = (missing_if-nil_iff _ _ _).0 h2 in
      let (e, _) = (missing_if-nil_iff _ _ _).0 h3 in (a, b, d, e),
  λ (a, b, d, e). (missing_if-nil_iff _ _ _).1 (
    a,
    (missing_if-nil_iff _ _ _).1
        (b, (missing_if-nil_iff _ _ _).1 (d, (missing_if-nil_iff _ _ _).1 (e, refl))),
  ),
)

wif_missing_names-nil_iff :
    (c : Config)
    → (wif_missing_names c ≡ []) ↔ (¬ IsBlank c.wif_issuer_url × ¬ IsBlank c.wif_client_id)
unfolding wif_missing_names
wif_missing_names-nil_iff c = (
  λ h.
      let (a, h1) = (missing_if-nil_iff _ _ _).0 h in
      let (b, _) = (missing_if-nil_iff _ _ _).0 h1 in (a, b),
  λ (a, b). (missing_if-nil_iff _ _ _).1 (a, (missing_if-nil_iff _ _ _).1 (b, refl)),
)

refuse_missing-none_iff :
    (prefix : Text) (names : List Text) (rest : Option Text)
    → (refuse_missing prefix names rest ≡ none) ↔ ((names ≡ []) × (rest ≡ none))
refuse_missing-none_iff prefix [] rest = ground (arith)
refuse_missing-none_iff prefix (s ∷ names) rest = ground (arith)

wif_part-none_iff :
    (b : Bool) (prefix : Text) (names : List Text) (P : Type 0)
    → ((names ≡ []) ↔ P)
    → ((if b then refuse_missing prefix names none else none) ≡ none) ↔ ((b ≡ true) → P)
wif_part-none_iff true prefix names P h = (
  λ p _. h.0 ((refuse_missing-none_iff prefix names none).0 p).0,
  λ q. (refuse_missing-none_iff prefix names none).1 (h.1 (q refl), refl),
)
wif_part-none_iff false prefix names P h = ((λ p q. absurd (cc)), λ q. refl)

validate-none_iff : (c : Config) → (validate c ≡ none) ↔ IsUsable c
unfolding validate
validate-none_iff c =
    let all =
      refuse_missing-none_iff (codes "required config values must be non-empty: ") (missing_names c)
        _ in
    let wif =
      wif_part-none_iff c.wif_enabled (codes "WIF_ENABLED=true requires non-empty: ")
        (wif_missing_names c) _ (wif_missing_names-nil_iff c) in
    let names = missing_names-nil_iff c in
    (
      λ h. let (p, q) = all.0 h in let (a, b, d, e) = names.0 p in (a, b, d, e, wif.0 q),
      λ (a, b, d, e, w). all.1 (names.1 (a, b, d, e), wif.1 w),
    )

config-inj : (d c : Config) → config d ≡ config c → d ≡ c
config-inj d c e = ground (arith, e)

load_of :
    (d c : Config) (o : Option Text)
    → validate d ≡ o
    → (load (config d) ≡ config c) ↔ ((config d ≡ config c) × (o ≡ none))
unfolding load
load_of d c none p = rw p ((λ h. (h, refl)), λ (h, _). h)
load_of d c (some msg) p = rw p ((λ h. absurd (cc)), λ (h, q). absurd (cc))

-- A configuration is loaded exactly when the environment gives it and its API key, its OAuth client
-- and secret and its HMAC secret are not blank, nor, when workload identity federation is enabled,
-- its issuer and client.
pub load_iff : (p : Loaded) (c : Config) → (load p ≡ config c) ↔ ((p ≡ config c) × IsUsable c)
unfolding load
load_iff (failed msg) c = ground (arith)
load_iff (config d) c =
    let loaded = load_of d c (validate d) refl in
    (
      λ h.
          let (p, q) = loaded.0 h in
          (p, subst IsUsable (config-inj d c p) ((validate-none_iff d).0 q)),
      λ (p, u). loaded.1 (p, (validate-none_iff d).1 (subst IsUsable (sym (config-inj d c p)) u)),
    )
