-- ===== src/Main/Server.antt =====
-- What `main` builds from a configuration: its loggers and its server.
use headtotails.Prelude.{
  ◌*◌, ◌≡◌, ◌⊎◌, ◌↔◌, refl, Bool, true, false, Option, none, some, List, [], ◌∷◌, arith,
  if◌then◌else◌,
}
use headtotails.Text.{Text, codes, eq_iff}
use headtotails.Time.{second}
use headtotails.Config.{Config}
use headtotails.Headscale.Client.{GrpcClient}
use headtotails.Api.Wif.Validator.{OidcValidator, trim_right_slash, new_oidc_validator}
use headtotails.Api.Router.{Router, new_router}
use headtotails.Main.Loggers.{IsLogger, setup-IsLogger}
use headtotails.Main.{
  should_print_version, Surroundings, TlsConfig, version_tls12, HttpServer, bootstrap_logger,
  logger_of, router_of, server_of, tls_of,
}

-- The process was asked for its version.
pub data AsksVersion : List Text → Type 0 where
  asks :
      (program arg : Text) (args : List Text)
      → (arg ≡ codes "--version") ⊎ (arg ≡ codes "version")
      → AsksVersion (program ∷ arg ∷ args)

-- The validator of the router: none unless federation is enabled.
pub data Federates (cfg : Config) : Option OidcValidator → Type 0 where
  disabled : cfg.wif_enabled ≡ false → Federates cfg none
  enabled :
      (v : OidcValidator)
      → cfg.wif_enabled ≡ true
      → v.issuer_url ≡ trim_right_slash cfg.wif_issuer_url
      → v.audience ≡ cfg.wif_audience
      → v.client_id ≡ cfg.wif_client_id
      → v.jwks ≡ none
      → Federates cfg (some v)

pub record IsRouter (cfg : Config) (r : Router) : Type 0 where
  pub same_tailnet : r.tailnet_name ≡ cfg.tailnet_name
  pub same_key : r.headscale_api_key ≡ cfg.headscale_api_key
  pub same_id : r.client_id ≡ cfg.oauth_client_id
  pub same_secret : r.client_secret ≡ cfg.oauth_client_secret
  pub same_hmac : r.hmac_secret ≡ cfg.oauth_hmac_secret
  pub federates : Federates cfg r.wif_validator
  pub same_wif_id : r.wif_client_id ≡ cfg.wif_client_id

-- TLS with exactly the certificate that was loaded, of version 1.2 at least; none without one.
pub data Secures {T : Type 0} : Option T → Option (TlsConfig T) → Type 0 where
  plain : Secures none none
  secured :
      (cert : T) (tls : TlsConfig T)
      → tls.certificates ≡ cert ∷ []
      → tls.min_version ≡ version_tls12
      → Secures (some cert) (some tls)

module _ {K T : Type 0} (env : Surroundings K T) where
  pub record IsServer (cfg : Config) (conn : K) (cert : Option T) (s : HttpServer K T)
      : Type 0 where
    pub at_addr : s.addr ≡ cfg.listen_addr
    pub on_conn : s.conn ≡ conn
    pub api_key_set : s.client.api_key ≡ cfg.headscale_api_key
    pub routes : IsRouter cfg s.handler
    pub reads_for : s.read_timeout ≡ 15 * second
    pub writes_for : s.write_timeout ≡ 15 * second
    pub idles_for : s.idle_timeout ≡ 60 * second
    pub secures : Secures cert s.tls_config
    pub logs :
        IsLogger env.other cfg.log_level cfg.log_add_source env.version cfg.environment s.logger

-- The tests of main.go and logger.go against these.
to_asks : (args : List Text) → should_print_version args ≡ true → AsksVersion args
unfolding should_print_version
to_asks [] h = cc
to_asks (program ∷ []) h = cc
to_asks (program ∷ arg ∷ args) h =
    asks program arg args
      (ground (arith, h, eq_iff arg (codes "--version"), eq_iff arg (codes "version")))

from_asks : (args : List Text) → AsksVersion args → should_print_version args ≡ true
unfolding should_print_version
from_asks _ (asks program arg args h) =
    ground (arith, h, eq_iff arg (codes "--version"), eq_iff arg (codes "version"))

pub should_print_version_iff :
    (args : List Text) → (should_print_version args ≡ true) ↔ AsksVersion args
should_print_version_iff args = (to_asks args, from_asks args)

federated :
    (cfg : Config) (b : Bool)
    → cfg.wif_enabled ≡ b
    → Federates cfg (
        if b
        then some (new_oidc_validator cfg.wif_issuer_url cfg.wif_audience cfg.wif_client_id)
        else none)
unfolding new_oidc_validator
federated cfg true on = enabled _ on refl refl refl refl
federated cfg false off = disabled off

module _ {K T : Type 0} (env : Surroundings K T) where
  pub bootstrap_logger-IsLogger :
      IsLogger env.other
        (codes "info")
        false
        env.version
        (codes "production")
        (bootstrap_logger env)
  unfolding bootstrap_logger
  bootstrap_logger-IsLogger =
      setup-IsLogger env.other (codes "info") false env.version (codes "production")

  pub logger_of-IsLogger :
      (cfg : Config)
      → IsLogger env.other cfg.log_level cfg.log_add_source env.version cfg.environment
          (logger_of env cfg)
  unfolding logger_of
  logger_of-IsLogger cfg =
      setup-IsLogger env.other cfg.log_level cfg.log_add_source env.version cfg.environment

  router_of-IsRouter : (cfg : Config) → IsRouter cfg (router_of env cfg)
  unfolding router_of new_router new_oidc_validator
  router_of-IsRouter cfg = record {
    same_tailnet = refl;
    same_key = refl;
    same_id = refl;
    same_secret = refl;
    same_hmac = refl;
    federates = federated cfg cfg.wif_enabled refl;
    same_wif_id = refl;
  }

  tls_of-Secures : (cert : Option T) → Secures cert (tls_of env cert)
  tls_of-Secures none = plain
  tls_of-Secures (some cert) = secured cert _ refl refl

  pub server_of-IsServer :
      (cfg : Config) (conn : K) (client : GrpcClient) (cert : Option T)
      → client.api_key ≡ cfg.headscale_api_key
      → IsServer env cfg conn cert (server_of env cfg conn client cert)
  unfolding server_of
  server_of-IsServer cfg conn client cert key = record {
    at_addr = refl;
    on_conn = refl;
    api_key_set = key;
    routes = router_of-IsRouter cfg;
    reads_for = refl;
    writes_for = refl;
    idles_for = refl;
    secures = tls_of-Secures cert;
    logs = logger_of-IsLogger cfg;
  }
