-- ===== src/Haic.antt =====
-- integration/haic/haic.go: headtotails in a container, for the integration tests. Docker
-- (dockertest) and the answers over HTTP are parameters; log lines and closed bodies are left out.
pub mod Waiting
use headtotails.Prelude.{
  ℕ, zero, suc, ◌+◌, ◌*◌, ◌/◌, Bool, true, false, Option, none, some, List, [], ◌∷◌, ◌++◌, ltb,
  nat_eq, if◌then◌else◌,
}
use headtotails.Text.{Text, codes}
use headtotails.Time.{Time, second}

-- `pool` and `networks` are the ones of `new`; a network is its id.
pub record HeadapiInContainer (C : Type 0) : Type 0 where
  pub container : Option C
  pub networks : List Text
  pub headscale_addr : Text
  pub headscale_api_key : Text
  pub oauth_client_id : Text
  pub oauth_client_secret : Text
  pub hmac_secret : Text
  pub tailnet_name : Text
  pub listen_port : Text

pub record BuildImageOptions : Type 0 where
  pub name : Text
  pub context_dir : Text
  pub dockerfile : Text
  pub suppress_output : Bool
  pub pull : Bool

pub record RunOptions : Type 0 where
  pub repository : Text
  pub tag : Text
  pub env : List Text
  pub network_id : Text
  pub auto_remove : Bool
  pub restart_policy : Text

-- A container, or the text of an error.
pub data Ran (C : Type 0) : Type 0 where
  ran : C → Ran C
  run_failed : Text → Ran C

-- The pool of dockertest: an error is a text.
pub record Pool (C : Type 0) : Type 0 where
  pub build_image : BuildImageOptions → Option Text
  pub run_with_options : RunOptions → Ran C
  pub get_port : C → Text → Text
  pub purge : C → Option Text

-- `New` returns a container or an error, or panics on `networkIDs[0]`.
pub data Created (C : Type 0) : Type 0 where
  created : HeadapiInContainer C → Created C
  failed : Text → Created C
  panicked : Created C

abbrev image : Text
image = codes "headtotails"

abbrev port : Text
port = codes "8080/tcp"

-- `Option`, of the package.
abbrev pub Opt : Type 0 → Type 0
Opt C = HeadapiInContainer C → HeadapiInContainer C

abbrev pub build_options : BuildImageOptions
build_options = record {
  name = image;
  context_dir = codes "../../";
  dockerfile = codes "Dockerfile";
  suppress_output = true;
  pull = false;
}

module _ {C : Type 0} where
  unfoldable pub with_oauth_credentials : Text → Text → Opt C
  with_oauth_credentials id secret h = record h {
    oauth_client_id = id;
    oauth_client_secret = secret;
  }

  unfoldable pub with_headscale_api_key : Text → Opt C
  with_headscale_api_key key h = record h { headscale_api_key = key }

  unfoldable pub with_tailnet_name : Text → Opt C
  with_tailnet_name name h = record h { tailnet_name = name }

  unfoldable pub with_hmac_secret : Text → Opt C
  with_hmac_secret secret h = record h { hmac_secret = secret }

  abbrev defaults : List Text → Text → HeadapiInContainer C
  defaults networks hostname = record {
    container = none;
    networks = networks;
    headscale_addr = hostname ++ codes ":50443";
    headscale_api_key = [];
    oauth_client_id = codes "headtotails-client";
    oauth_client_secret = codes "headtotails-secret";
    hmac_secret = codes "headtotails-hmac-secret-32-chars!!!";
    tailnet_name = codes "-";
    listen_port = [];
  }

  -- `for _, o := range opts { o(h) }`.
  unfoldable pub apply_all : List (Opt C) → Opt C
  apply_all [] h = h
  apply_all (o ∷ opts) h = apply_all opts (o h)

  unfoldable pub environment : HeadapiInContainer C → List Text
  environment h =
      codes "LISTEN_ADDR=:8080"
      ∷ (codes "HEADSCALE_ADDR=" ++ h.headscale_addr)
      ∷ (codes "HEADSCALE_API_KEY=" ++ h.headscale_api_key)
      ∷ (codes "TAILNET_NAME=" ++ h.tailnet_name)
      ∷ (codes "OAUTH_CLIENT_ID=" ++ h.oauth_client_id)
      ∷ (codes "OAUTH_CLIENT_SECRET=" ++ h.oauth_client_secret)
      ∷ (codes "OAUTH_HMAC_SECRET=" ++ h.hmac_secret)
      ∷ []

  module _ (pool : Pool C) where
    abbrev with_container : HeadapiInContainer C → Ran C → Created C
    with_container h (run_failed e) = failed (codes "start headtotails container: " ++ e)
    with_container h (ran c) =
        created (record h { container = some c; listen_port = pool.get_port c port })

    abbrev run_on : HeadapiInContainer C → List Text → Created C
    run_on h [] = panicked
    run_on h (network ∷ networks) = with_container h (
        pool.run_with_options (record {
          repository = image;
          tag = codes "latest";
          env = environment h;
          network_id = network;
          auto_remove = true;
          restart_policy = codes "no";
        }))

    abbrev with_image : HeadapiInContainer C → Option Text → Created C
    with_image h (some e) = failed (codes "build headtotails image: " ++ e)
    with_image h none = run_on h h.networks

    -- `hostname` is what the control server's GetHostname returns.
    unfoldable pub new : List Text → Text → List (Opt C) → Created C
    unfolding apply_all environment
    new networks hostname opts =
        with_image (apply_all opts (defaults networks hostname)) (pool.build_image build_options)

    abbrev purged : Option C → Option Text
    purged none = none
    purged (some c) = pool.purge c

    unfoldable pub shutdown : HeadapiInContainer C → Option Text
    shutdown h = purged h.container

  unfoldable pub get_endpoint : HeadapiInContainer C → Text
  get_endpoint h = codes "http://localhost:" ++ h.listen_port

  abbrev pub get_oauth_client_id : HeadapiInContainer C → Text
  get_oauth_client_id h = h.oauth_client_id

  abbrev pub get_oauth_client_secret : HeadapiInContainer C → Text
  get_oauth_client_secret h = h.oauth_client_secret
