-- ===== src/Api/Sessions.antt =====
-- The token store under all that writes to it: the two handlers that issue tokens, of auth.go and
-- wif.go, and the purge every five minutes. The lock makes each an atomic step, so that a run of
-- the server is a sequence of events, each with the time at which it reads the clock.
mod Validity
pub mod Alike
pub mod Seen
pub mod Acceptance
use headtotails.Prelude.{ℕ, ◌≡◌, ◌≤◌, Option, none, some, List, [], ◌∷◌, if◌then◌else◌}
use headtotails.Text.{Text}
use headtotails.Time.{Time}
use headtotails.Api.Http.{Request, Response, Body, token_json}
use headtotails.Api.TokenStore.{TokenStore, new_token_store, purge}
use headtotails.Api.Oauth.{Crypto, OauthConfig, oauth_token_handler}
use headtotails.Api.Wif.Exchange.{JwtValidator, token_exchange_handler}

-- A request with the random bytes that its handler reads, or a tick of `purgeLoop`.
pub data Action : Type 0 where
  asks exchanges : Request → Option (List ℕ) → Action
  purges : Action

pub record Event : Type 0 where
  pub time : Time
  pub action : Action

-- `sent` is what the clients saw: each access token with the time of its response.
pub record Server (V : Type 0) : Type 0 where
  pub tokens : TokenStore
  pub validator_state : V
  pub sent : List (Text × Time)

abbrev pub note : Time → Response → List (Text × Time) → List (Text × Time)
note now x sent = elim x.body [ token_json t ↦ (t.access_token, now) ∷ sent | _ ↦ sent ]

module _ {V : Type 0} (cfg : OauthConfig) (crypto : Crypto) (validator : Option (JwtValidator V))
    (wif_client_id : Text) where
  -- The handlers as the router makes them: with one store and one HMAC secret.
  unfoldable pub step : Event → Server V → Server V
  step ev s = elim ev.action [
    | asks r random ↦
        let (x, ts) = oauth_token_handler cfg crypto random ev.time r s.tokens in
        record s { tokens = ts; sent = note ev.time x s.sent }
    | exchanges r random ↦
        let ((x, ts), v) =
          token_exchange_handler cfg.hmac_secret wif_client_id crypto validator random ev.time r
            s.tokens s.validator_state in
        record { tokens = ts; validator_state = v; sent = note ev.time x s.sent }
    | purges ↦ record s { tokens = purge ev.time s.tokens }
  ]

  unfoldable pub run : List Event → Server V → Server V
  unfolding step
  run [] s = s
  run (ev ∷ evs) s = run evs (step ev s)

unfoldable pub new_server : {V : Type 0} → V → Server V
new_server v = record { tokens = new_token_store; validator_state = v; sent = [] }

-- The clock does not run backwards, from a first time to a last.
abbrev pub InOrder : Time → List Event → Time → Type 0
InOrder before [] last = before ≤ last
InOrder before (ev ∷ evs) last = (before ≤ ev.time) × InOrder ev.time evs last
