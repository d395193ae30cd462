-- ===== src/Tests/Settings.antt =====
-- The configuration, the log and the translation of an expiry.
use headtotails.Prelude.{ℕ, ◌+◌, ◌*◌, ◌<◌, ◌≡◌, refl, ◌↔◌, true, false, some, [], ◌++◌, arith, pos}
use headtotails.Text.{codes}
use headtotails.Text.Space.{trim_space}
use headtotails.Text.Fold.{to_lower}
use headtotails.Time.{Time, second}
use headtotails.Model.{CreateKeyRequest}
use headtotails.Translate.{key_request_to_create_pre_auth_key_request}
use headtotails.Translate.Expiry.{given, key_expires_in, key_expired_at_creation}
use headtotails.Config.{Config, config, load}
use headtotails.Config.Laws.{IsUsable, load_iff}
use headtotails.Logging.{normalize_key, any, text, redact_attr}
use headtotails.Logging.Redaction.{token, redact_attr-suffix}
use headtotails.Tests.{key_request}

abbrev pub settings : Config
settings = record {
  listen_addr = codes ":8080";
  headscale_addr = codes "localhost:50443";
  headscale_api_key = codes "k";
  tailnet_name = codes "-";
  oauth_hmac_secret = codes "h";
  oauth_client_id = codes "i";
  oauth_client_secret = codes "s";
  tls_cert = [];
  tls_key = [];
  wif_enabled = true;
  wif_issuer_url = codes "https://i";
  wif_audience = [];
  wif_client_id = codes " ";
  log_level = codes "info";
  log_add_source = false;
  environment = codes "test";
}

load_iff_example :
    (load (config settings) ≡ config settings)
    ↔ ((config settings ≡ config settings) × IsUsable settings)
load_iff_example = load_iff (config settings) settings

normalized : normalize_key (λ c. c) (codes "-To_Ken") ≡ codes "token"
unfolding normalize_key trim_space to_lower
normalized = refl

redact_attr-suffix_example :
    redact_attr {V = ℕ} (λ c. c) (record { key = codes "bot" ++ codes "-To_Ken"; value = any 42 })
    ≡ record { key = codes "bot" ++ codes "-To_Ken"; value = text (codes "[REDACTED]") }
redact_attr-suffix_example =
    redact_attr-suffix (λ c. c) token (codes "bot") (codes "-To_Ken") (ground arith) (ground arith)
      normalized (any 42)

key_expires_in_example :
    (key_request_to_create_pre_auth_key_request 1000 key_request 1).expiration
    ≡ some (1000 + 120 * second)
key_expires_in_example = key_expires_in 1000 key_request 1 120 (given 119) (omega arith)

abbrev long_request : CreateKeyRequest
long_request = record key_request { expiry_seconds = pos 9223372037 }

key_expired_at_creation_example :
    (t : Time) × ((key_request_to_create_pre_auth_key_request 1000 long_request 1).expiration
      ≡ some t)
    × (t < 1000)
key_expired_at_creation_example =
    key_expired_at_creation 1000 long_request 1 9223372037 (given 9223372036) (omega arith)
      (omega arith) (omega arith)
