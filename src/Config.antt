-- ===== src/Config.antt =====
-- internal/config/config.go: the settings, and the test that none of the credentials is blank.
-- Reading them from the environment (envconfig) is a parameter.
pub mod Laws
use headtotails.Prelude.{
  ℕ, Bool, true, false, not, Option, none, some, List, [], ◌∷◌, ◌++◌, if◌then◌else◌,
}
use headtotails.Text.{Text, codes, ◌==◌}
use headtotails.Text.Space.{trim_space}

pub record Config : Type 0 where
  pub listen_addr : Text
  pub headscale_addr : Text
  pub headscale_api_key : Text
  pub tailnet_name : Text
  pub oauth_hmac_secret : Text
  pub oauth_client_id : Text
  pub oauth_client_secret : Text
  pub tls_cert : Text
  pub tls_key : Text
  pub wif_enabled : Bool
  pub wif_issuer_url : Text
  pub wif_audience : Text
  pub wif_client_id : Text
  pub log_level : Text
  pub log_add_source : Bool
  pub environment : Text

-- `strings.Join(names, ", ")`.
unfoldable pub join_comma : List Text → Text
join_comma [] = []
join_comma (s ∷ []) = s
join_comma (s ∷ t ∷ names) = s ++ codes ", " ++ join_comma (t ∷ names)

-- `if strings.TrimSpace(value) == "" { missing = append(missing, name) }`, before the rest.
unfoldable pub missing_if : Text → Text → List Text → List Text
missing_if value name rest = if trim_space value == [] then name ∷ rest else rest

unfoldable pub missing_names : Config → List Text
unfolding missing_if
missing_names c = missing_if c.headscale_api_key (codes "HEADSCALE_API_KEY") (
    missing_if c.oauth_client_id (codes "OAUTH_CLIENT_ID") (
      missing_if c.oauth_client_secret (codes "OAUTH_CLIENT_SECRET")
        (missing_if c.oauth_hmac_secret (codes "OAUTH_HMAC_SECRET") [])))

unfoldable pub wif_missing_names : Config → List Text
unfolding missing_if
wif_missing_names c =
    missing_if c.wif_issuer_url (codes "WIF_ISSUER_URL")
      (missing_if c.wif_client_id (codes "WIF_CLIENT_ID") [])

-- `if len(missing) > 0 { return fmt.Errorf(…) }`: no error is `none`.
abbrev pub refuse_missing : Text → List Text → Option Text → Option Text
refuse_missing prefix [] rest = rest
refuse_missing prefix (s ∷ names) rest = some (prefix ++ join_comma (s ∷ names))

unfoldable pub validate : Config → Option Text
unfolding missing_names wif_missing_names
validate c = refuse_missing (codes "required config values must be non-empty: ") (missing_names c) (
    if c.wif_enabled
    then refuse_missing (codes "WIF_ENABLED=true requires non-empty: ") (wif_missing_names c) none
    else none)

-- A configuration or the text of an error.
pub data Loaded : Type 0 where
  config : Config → Loaded
  failed : Text → Loaded

abbrev validated : Config → Option Text → Loaded
validated c none = config c
validated c (some msg) = failed msg

-- `processed` is what `envconfig.Process` fills the struct with, or its error.
unfoldable pub load : Loaded → Loaded
unfolding validate
load (failed msg) = failed msg
load (config c) = validated c (validate c)
