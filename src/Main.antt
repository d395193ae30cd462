-- ===== src/Main.antt =====
-- cmd/headtotails/main.go: how the process starts, with what, and how it ends. Dialling headscale
-- and loading the TLS certificate are parameters; `other` lowers the code points outside ASCII.
pub mod Server
pub mod Loggers
pub mod Laws
pub mod Shutdown
use headtotails.Prelude.{
  ℕ, ◌*◌, ◌≡◌, Bool, true, false, not, ◌&&◌, ◌||◌, Option, none, some, List, [], ◌∷◌, ◌++◌,
  if◌then◌else◌,
}
use headtotails.Text.{Text, codes, ◌==◌}
use headtotails.Time.{second}
use headtotails.Headscale.Client.{
  GrpcClient, Dialled, Connecting, connected, refused, new_grpc_client,
}
use headtotails.Config.{Config, Loaded, config, failed, load}
use headtotails.Logging.{Options, Logger, setup}
use headtotails.Api.Router.{Router, WifConfig, new_router}

unfoldable pub should_print_version : List Text → Bool
should_print_version (program ∷ arg ∷ args) = arg == codes "--version" || arg == codes "version"
should_print_version _ = false

abbrev target_tailscale_api_version : Text
target_tailscale_api_version = codes "0.28.0"

-- The two lines of `printVersion`.
unfoldable pub print_version : Text → Text
print_version version =
    codes "headtotails version: "
    ++ version
    ++ codes "\n"
    ++ codes "target tailscale api: "
    ++ target_tailscale_api_version
    ++ codes "\n"

-- What the process meets: its arguments, what `envconfig.Process` makes of the environment, what
-- grpc.NewClient returns for an address, and tls.LoadX509KeyPair for two files: a certificate, or
-- the text of an error.
pub data KeyPair (T : Type 0) : Type 0 where
  key_pair : T → KeyPair T
  not_loaded : Text → KeyPair T

pub record Surroundings (K T : Type 0) : Type 0 where
  pub args : List Text
  pub version : Text
  pub processed : Loaded
  pub dial : Text → Dialled K
  pub load_key_pair : Text → Text → KeyPair T
  pub other : ℕ → ℕ

pub data TlsVersion : Type 0 where
  version_tls12 : TlsVersion

pub record TlsConfig (T : Type 0) : Type 0 where
  pub certificates : List T
  pub min_version : TlsVersion

-- `http.Server` with what it serves, and the logger in place.
pub record HttpServer (K T : Type 0) : Type 0 where
  pub addr : Text
  pub conn : K
  pub client : GrpcClient
  pub handler : Router
  pub read_timeout : ℕ
  pub write_timeout : ℕ
  pub idle_timeout : ℕ
  pub tls_config : Option (TlsConfig T)
  pub logger : Logger

-- The first part of `main`: this text is printed, or there is an exit with status 1 after one
-- record with an error, of this logger, or the server starts.
pub data Failure : Type 0 where
  no_config no_connection no_certificate : Text → Failure

pub data Started (K T : Type 0) : Type 0 where
  version_printed : Text → Started K T
  exited : Failure → Logger → Started K T
  listening : HttpServer K T → Started K T

abbrev pub service_name : Text
service_name = codes "headtotails"

module _ {K T : Type 0} (env : Surroundings K T) where
  -- The logger in place before the configuration is loaded, and the one of a configuration.
  unfoldable pub bootstrap_logger : Logger
  bootstrap_logger = setup env.other (record {
    level = codes "info";
    add_source = false;
    service = service_name;
    version = env.version;
    env = codes "production";
  })

  unfoldable pub logger_of : Config → Logger
  logger_of cfg = setup env.other (record {
    level = cfg.log_level;
    add_source = cfg.log_add_source;
    service = service_name;
    version = env.version;
    env = cfg.environment;
  })

  unfoldable pub router_of : Config → Router
  router_of cfg =
      new_router cfg.tailnet_name cfg.headscale_api_key cfg.oauth_client_id cfg.oauth_client_secret
        cfg.oauth_hmac_secret
        (record {
          enabled = cfg.wif_enabled;
          issuer_url = cfg.wif_issuer_url;
          audience = cfg.wif_audience;
          client_id = cfg.wif_client_id;
        })

  abbrev pub tls_of : Option T → Option (TlsConfig T)
  tls_of none = none
  tls_of (some cert) = some (record { certificates = cert ∷ []; min_version = version_tls12 })

  unfoldable pub server_of : Config → K → GrpcClient → Option T → HttpServer K T
  unfolding router_of logger_of
  server_of cfg conn client certificate = record {
    addr = cfg.listen_addr;
    conn = conn;
    client = client;
    handler = router_of cfg;
    read_timeout = 15 * second;
    write_timeout = 15 * second;
    idle_timeout = 60 * second;
    tls_config = tls_of certificate;
    logger = logger_of cfg;
  }

  abbrev with_certificate : Config → K → GrpcClient → KeyPair T → Started K T
  with_certificate cfg conn client (not_loaded e) = exited (no_certificate e) (logger_of cfg)
  with_certificate cfg conn client (key_pair cert) =
      listening (server_of cfg conn client (some cert))

  -- `cfg.TLSCert != "" && cfg.TLSKey != ""`.
  abbrev with_client : Config → Connecting K → Started K T
  with_client cfg (refused e) = exited (no_connection e) (logger_of cfg)
  with_client cfg (connected conn client) =
      if not (cfg.tls_cert == []) && not (cfg.tls_key == [])
      then with_certificate cfg conn client (env.load_key_pair cfg.tls_cert cfg.tls_key)
      else listening (server_of cfg conn client none)

  abbrev with_config : Loaded → Started K T
  with_config (failed msg) = exited (no_config msg) bootstrap_logger
  with_config (config cfg) =
      with_client cfg (new_grpc_client env.dial cfg.headscale_addr cfg.headscale_api_key)

  unfoldable pub main : Started K T
  unfolding should_print_version print_version server_of bootstrap_logger
  main =
      if should_print_version env.args
      then version_printed (print_version env.version)
      else with_config (load env.processed)
