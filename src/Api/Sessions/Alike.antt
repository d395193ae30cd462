-- ===== src/Api/Sessions/Alike.antt =====
-- The handlers that issue tokens, on two stores.
use headtotails.Prelude.{
  ℕ, ◌≡◌, refl, Bool, true, false, not, ◌||◌, Option, none, some, List, [], if◌then◌else◌,
}
use headtotails.Text.{Text, codes, ◌==◌}
use headtotails.Time.{Time}
use headtotails.Api.Http.{Request, form_value, Response}
use headtotails.Api.TokenStore.{TokenEntry, TokenStore, store}
use headtotails.Api.Oauth.{
  Crypto, OauthConfig, generate_token, parse_oauth_credentials, issue, answer_credentials,
  oauth_token_handler,
}
use headtotails.Api.Wif.Exchange.{
  Validated, valid, invalid, JwtValidator, exchange_client_id, exchanged, token_exchange_handler,
}

-- Two answers on two stores are the same response, with both stores as they were or with one token
-- put in both.
pub data Alike (ts us : TokenStore) (x y : Response × TokenStore) : Type 0 where
  kept : x.0 ≡ y.0 → x.1 ≡ ts → y.1 ≡ us → Alike ts us x y
  put :
      (tok : Text) (e : TokenEntry)
      → x.0 ≡ y.0
      → x.1 ≡ store ts tok e
      → y.1 ≡ store us tok e
      → Alike ts us x y

module _ (ts us : TokenStore) where
  Alike-test :
      (b : Bool) (x : Response) (rest rest' : Response × TokenStore)
      → Alike ts us rest rest'
      → Alike ts us (if b then (x, ts) else rest) (if b then (x, us) else rest')
  Alike-test true x rest rest' h = kept refl refl refl
  Alike-test false x rest rest' h = h

  issue-Alike :
      (now : Time) (generated : Option Text)
      → Alike ts us (issue now generated ts) (issue now generated us)
  unfolding issue
  issue-Alike now none = kept refl refl refl
  issue-Alike now (some tok) = put tok _ refl refl refl

  module _ (cfg : OauthConfig) (crypto : Crypto) (random : Option (List ℕ)) (now : Time)
      (r : Request) where
    answer_credentials-Alike :
        (o : Option (Text × Text))
        → Alike ts us
            (answer_credentials cfg crypto random now r ts o)
            (answer_credentials cfg crypto random now r us o)
    answer_credentials-Alike none = kept refl refl refl
    answer_credentials-Alike (some (id, secret)) =
        let grant_type = form_value r (codes "grant_type") in
        Alike-test (grant_type == []) _ _ _ (
          Alike-test (not (grant_type == codes "client_credentials")) _ _ _ (
            Alike-test (not (id == cfg.client_id) || not (secret == cfg.client_secret)) _ _ _
              (issue-Alike now (generate_token crypto cfg.hmac_secret random))))

    pub oauth_token_handler-Alike :
        Alike ts us
          (oauth_token_handler cfg crypto random now r ts)
          (oauth_token_handler cfg crypto random now r us)
    unfolding oauth_token_handler
    oauth_token_handler-Alike = answer_credentials-Alike (parse_oauth_credentials r)

  -- With a validator, whose state comes out the same.
  module _ {V : Type 0} where
    abbrev pub BothAlike : (Response × TokenStore) × V → (Response × TokenStore) × V → Type 0
    BothAlike x y = Alike ts us x.0 y.0 × (x.1 ≡ y.1)

    BothAlike-test :
        (b : Bool) (x : Response) (v : V) (rest rest' : (Response × TokenStore) × V)
        → BothAlike rest rest'
        → BothAlike (if b then ((x, ts), v) else rest) (if b then ((x, us), v) else rest')
    BothAlike-test true x v rest rest' h = (kept refl refl refl, refl)
    BothAlike-test false x v rest rest' h = h

    module _ (hmac_secret expected_client_id : Text) (crypto : Crypto) (random : Option (List ℕ))
        (now : Time) where
      exchanged-BothAlike :
          (o : Validated) (v : V)
          → BothAlike
              (exchanged crypto hmac_secret random now ts (o, v))
              (exchanged crypto hmac_secret random now us (o, v))
      exchanged-BothAlike (invalid e) v = (kept refl refl refl, refl)
      exchanged-BothAlike (valid claims) v =
          (issue-Alike now (generate_token crypto hmac_secret random), refl)

      pub token_exchange_handler-BothAlike :
          (validator : Option (JwtValidator V)) (r : Request) (v : V)
          → BothAlike
              (token_exchange_handler hmac_secret expected_client_id crypto validator random now r
                ts v)
              (token_exchange_handler hmac_secret expected_client_id crypto validator random now r
                us v)
      unfolding token_exchange_handler
      token_exchange_handler-BothAlike none r v = (kept refl refl refl, refl)
      token_exchange_handler-BothAlike (some validate) r v =
          let (o, v') = validate (form_value r (codes "jwt")) v in
          let id = exchange_client_id r in
          BothAlike-test (not (form_value r (codes "grant_type") == codes "client_credentials")) _ v
            _ _
            (BothAlike-test (id == []) _ v _ _ (
              BothAlike-test (not (id == expected_client_id)) _ v _ _ (
                BothAlike-test (form_value r (codes "jwt") == []) _ v _ _
                  (exchanged-BothAlike o v'))))
