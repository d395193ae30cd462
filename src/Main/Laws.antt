-- ===== src/Main/Laws.antt =====
-- cmd/headtotails/main.go: when, and with what, the process starts to listen.
use headtotails.Prelude.{
  ◌≡◌, refl, ◌≢◌, ◌⊎◌, inl, inr, false, Option, none, some, [], ◌++◌, arith, Bool-cases,
}
use headtotails.Text.{Text, codes, ◌==◌, eq_iff}
use headtotails.Config.{Config, Loaded, config, failed, load}
use headtotails.Logging.{Logger}
use headtotails.Main.Loggers.{IsLogger}
use headtotails.Main.Server.{
  AsksVersion, IsServer, should_print_version_iff, bootstrap_logger-IsLogger, logger_of-IsLogger,
  server_of-IsServer,
}
use headtotails.Config.Laws.{IsUsable, load_iff}
use headtotails.Headscale.Client.{Dialled, connection, dial_failed, connected, new_grpc_client}
use headtotails.Main.{
  should_print_version, print_version, KeyPair, key_pair, not_loaded, Surroundings, Started,
  HttpServer, version_printed, exited, listening, no_config, no_connection, no_certificate,
  server_of, with_certificate, with_client, with_config, main,
}

module _ {K T : Type 0} (env : Surroundings K T) where
  -- The certificate that is served: none unless both files are named, and then what they hold.
  abbrev pub Serves : Config → Option T → Type 0
  Serves cfg none = (cfg.tls_cert ≡ []) ⊎ (cfg.tls_key ≡ [])
  Serves cfg (some cert) =
      (cfg.tls_cert ≢ [])
      × (cfg.tls_key ≢ [])
      × (env.load_key_pair cfg.tls_cert cfg.tls_key ≡ key_pair cert)

  -- The environment gives a configuration that can be used.
  abbrev Configured : Type 0
  Configured = (cfg : Config) × (env.processed ≡ config cfg) × IsUsable cfg

  -- The logger of a configuration.
  abbrev LogsAs : Config → Logger → Type 0
  LogsAs cfg l = IsLogger env.other cfg.log_level cfg.log_add_source env.version cfg.environment l

  -- How the start ends, and when: with the version, with an error and the logger in place, or with
  -- a server.
  pub data Start : Started K T → Type 0 where
    shows_version :
        AsksVersion env.args
        → Start (
            version_printed (
              codes "headtotails version: "
              ++ env.version
              ++ codes "\n"
              ++ codes "target tailscale api: "
              ++ codes "0.28.0"
              ++ codes "\n"))
    not_configured :
        (msg : Text) (l : Logger)
        → ¬ AsksVersion env.args
        → ¬ Configured
        → load env.processed ≡ failed msg
        → IsLogger env.other (codes "info") false env.version (codes "production") l
        → Start (exited (no_config msg) l)
    not_dialled :
        (cfg : Config) (e : Text) (l : Logger)
        → ¬ AsksVersion env.args
        → env.processed ≡ config cfg
        → IsUsable cfg
        → env.dial cfg.headscale_addr ≡ dial_failed e
        → LogsAs cfg l
        → Start (
            exited
              (no_connection
                (codes "dial headscale gRPC at " ++ cfg.headscale_addr ++ codes ": " ++ e))
              l)
    not_certified :
        (cfg : Config) (conn : K) (e : Text) (l : Logger)
        → ¬ AsksVersion env.args
        → env.processed ≡ config cfg
        → IsUsable cfg
        → env.dial cfg.headscale_addr ≡ connection conn
        → cfg.tls_cert ≢ []
        → cfg.tls_key ≢ []
        → env.load_key_pair cfg.tls_cert cfg.tls_key ≡ not_loaded e
        → LogsAs cfg l
        → Start (exited (no_certificate e) l)
    listens :
        (cfg : Config) (conn : K) (cert : Option T) (s : HttpServer K T)
        → ¬ AsksVersion env.args
        → env.processed ≡ config cfg
        → IsUsable cfg
        → env.dial cfg.headscale_addr ≡ connection conn
        → Serves cfg cert
        → IsServer env cfg conn cert s
        → Start (listening s)

  module _ (q : ¬ AsksVersion env.args) (cfg : Config) (given : env.processed ≡ config cfg)
      (usable : IsUsable cfg) where
    serving :
        (conn : K) (cert : Option T)
        → env.dial cfg.headscale_addr ≡ connection conn
        → Serves cfg cert
        → Start
            (listening (server_of env cfg conn (record { api_key = cfg.headscale_api_key }) cert))
    serving conn cert d serves =
        listens cfg conn cert _ q given usable d serves
          (server_of-IsServer env cfg conn (record { api_key = cfg.headscale_api_key }) cert refl)

    certificate-Start :
        (conn : K) (o : KeyPair T)
        → env.dial cfg.headscale_addr ≡ connection conn
        → cfg.tls_cert ≢ []
        → cfg.tls_key ≢ []
        → env.load_key_pair cfg.tls_cert cfg.tls_key ≡ o
        → Start (with_certificate env cfg conn (record { api_key = cfg.headscale_api_key }) o)
    certificate-Start conn (not_loaded e) d a b p =
        not_certified cfg conn e _ q given usable d a b p (logger_of-IsLogger env cfg)
    certificate-Start conn (key_pair cert) d a b p = serving conn (some cert) d (a, b, p)

    client-Start :
        (conn : K)
        → env.dial cfg.headscale_addr ≡ connection conn
        → Start (with_client env cfg (connected conn (record { api_key = cfg.headscale_api_key })))
    client-Start conn d = elim (Bool-cases (cfg.tls_cert == [])) [
      | inl no_cert ↦ rw no_cert (serving conn none d (inl ((eq_iff cfg.tls_cert []).0 no_cert)))
      | inr cert ↦ elim (Bool-cases (cfg.tls_key == [])) [
        | inl no_key ↦
            rw (cert, no_key) (serving conn none d (inr ((eq_iff cfg.tls_key []).0 no_key)))
        | inr key ↦
            rw (cert, key)
              (certificate-Start conn (env.load_key_pair cfg.tls_cert cfg.tls_key) d
                (ground (arith, cert, eq_iff cfg.tls_cert []))
                (ground (arith, key, eq_iff cfg.tls_key [])) refl)
      ]
    ]

    dial-Start :
        (o : Dialled K)
        → env.dial cfg.headscale_addr ≡ o
        → Start (
            with_client env cfg (new_grpc_client env.dial cfg.headscale_addr cfg.headscale_api_key))
    unfolding new_grpc_client
    dial-Start (connection conn) d = rw (with_client, d) (client-Start conn d)
    dial-Start (dial_failed e) d =
        rw (with_client, d) (not_dialled cfg e _ q given usable d (logger_of-IsLogger env cfg))

  load-Start :
      (l : Loaded) → ¬ AsksVersion env.args → load env.processed ≡ l → Start (with_config env l)
  load-Start (failed msg) q p =
      not_configured msg _ q
        (λ (cfg, given, usable).
          let loaded : load env.processed ≡ config cfg =
            (load_iff env.processed cfg).1 (given, usable) in
          cc (loaded, p))
        p (bootstrap_logger-IsLogger env)
  load-Start (config cfg) q p =
      let (given, usable) = (load_iff env.processed cfg).0 p in
      dial-Start q cfg given usable (env.dial cfg.headscale_addr) refl

  -- The process prints its version and that of the API if its first argument asks for it. Otherwise
  -- it exits with status 1 and the error of the first thing that fails: the configuration, if none
  -- can be used, with a logger of level info; the connection to headscale, or the certificate, if
  -- both of its files are named, with the logger that the configuration describes. If nothing
  -- fails, it listens: at the address of the configuration, with its key for headscale, with a
  -- router of its tailnet, key, credentials and federation, with timeouts of 15, 15 and 60 seconds,
  -- with that logger, and with TLS, of version 1.2 at least and with the certificate that was
  -- loaded, exactly if both files are named.
  pub main-Start : Start (main env)
  unfolding main print_version
  main-Start = elim (Bool-cases (should_print_version env.args)) [
    | inl shown ↦ rw shown (shows_version ((should_print_version_iff env.args).0 shown))
    | inr q ↦ rw q (
        load-Start (load env.processed)
          (λ asked. cc (q, (should_print_version_iff env.args).1 asked)) refl)
  ]
