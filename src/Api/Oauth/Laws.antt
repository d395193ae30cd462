-- ===== src/Api/Oauth/Laws.antt =====
-- When a token is issued, and what is kept of it.
use headtotails.Prelude.{
  ℕ, ◌+◌, ◌≡◌, refl, ◌≢◌, ◌↔◌, ◌⊎◌, Bool, true, false, Option, none, some, List, [], arith, not,
  ◌||◌, if◌then◌else◌,
}
use headtotails.Text.{Text, codes, ◌==◌, eq_iff}
use headtotails.Time.{Time}
use headtotails.Api.Http.{Request, form_value, Response, token_json, write_json, write_error}
use headtotails.Api.TokenStore.{TokenStore, store}
use headtotails.Api.Oauth.{
  oauth_token_ttl, Crypto, generate_token, parse_oauth_credentials, OauthConfig, issue,
  oauth_token_handler, answer_credentials,
}

abbrev NoBasicClient : Option (Text × Text) → Type 0
NoBasicClient none = Unit
NoBasicClient (some (id, secret)) = id ≡ []

-- A request presents credentials by Basic Auth, or, if that names no client, by a form that can be
-- parsed and gives both.
abbrev pub Presents : Request → Text → Text → Type 0
Presents r id secret =
    ((r.basic_auth ≡ some (id, secret)) × (id ≢ []))
    ⊎ (NoBasicClient r.basic_auth
        × (r.form_error ≡ false)
        × (form_value r (codes "client_id") ≡ id)
        × (form_value r (codes "client_secret") ≡ secret)
        × (id ≢ [])
        × (secret ≢ []))

present_lem :
    (basic : Option (Text × Text)) (r : Request) (id secret : Text)
    → r.basic_auth ≡ basic
    → (parse_oauth_credentials r ≡ some (id, secret)) ↔ Presents r id secret
unfolding parse_oauth_credentials
present_lem none r id secret p = ground (
  arith,
  eq_iff (form_value r (codes "client_id")) [],
  eq_iff (form_value r (codes "client_secret")) [],
)
present_lem (some (i, s)) r id secret p = ground (
  arith,
  eq_iff i [],
  eq_iff (form_value r (codes "client_id")) [],
  eq_iff (form_value r (codes "client_secret")) [],
)

parse_oauth_credentials_iff :
    (r : Request) (id secret : Text)
    → (parse_oauth_credentials r ≡ some (id, secret)) ↔ Presents r id secret
parse_oauth_credentials_iff r id secret = present_lem r.basic_auth r id secret refl

-- The response that sends a token.
abbrev pub sends : Text → Response
sends tok =
    write_json 200
      (token_json (record { access_token = tok; token_type = codes "Bearer"; expires_in = 3600 }))

-- The end of a handler that issues tokens: a failure with the store as it was, or a success with
-- the token stored for an hour.
pub data Issuing (generated : Option Text) (now : Time) (ts : TokenStore)
    (x : Response × TokenStore) : Type 0 where
  refused :
      (status : ℕ) (msg : Text)
      → status ≢ 200
      → x.0 ≡ write_error status msg
      → x.1 ≡ ts
      → Issuing generated now ts x
  issued :
      (tok : Text)
      → generated ≡ some tok
      → x.0 ≡ sends tok
      → x.1 ≡ store ts tok (record { expiry = now + oauth_token_ttl })
      → Issuing generated now ts x

pub issue-Issuing :
    (now : Time) (generated : Option Text) (ts : TokenStore)
    → Issuing generated now ts (issue now generated ts)
unfolding issue
issue-Issuing now none ts = refused 500 _ (omega arith) refl refl
issue-Issuing now (some tok) ts = issued tok refl refl refl

-- A test that refuses the request, in front of what may issue a token.
pub Issuing-test :
    (b : Bool) (status : ℕ) (msg : Text) (generated : Option Text) (now : Time) (ts : TokenStore)
    (rest : Response × TokenStore)
    → status ≢ 200
    → Issuing generated now ts rest
    → Issuing generated now ts (if b then (write_error status msg, ts) else rest)
Issuing-test true status msg generated now ts rest h i = refused status msg h refl refl
Issuing-test false status msg generated now ts rest h i = i

module _ (cfg : OauthConfig) (crypto : Crypto) (random : Option (List ℕ)) (now : Time) (r : Request)
    (ts : TokenStore) where
  answer_credentials-Issuing :
      (o : Option (Text × Text))
      → Issuing
          (generate_token crypto cfg.hmac_secret random)
          now
          ts
          (answer_credentials cfg crypto random now r ts o)
  answer_credentials-Issuing none = refused 400 _ (omega arith) refl refl
  answer_credentials-Issuing (some (id, secret)) =
      let grant = form_value r (codes "grant_type") in
      Issuing-test (grant == []) 400 _ _ now ts _ (omega arith) (
        Issuing-test (not (grant == codes "client_credentials")) 400 _ _ now ts _ (omega arith) (
          Issuing-test (not (id == cfg.client_id) || not (secret == cfg.client_secret)) 401 _ _ now
            ts _ (omega arith)
            (issue-Issuing now (generate_token crypto cfg.hmac_secret random) ts)))

  status-issue :
      (generated : Option Text)
      → ((issue now generated ts).0.status ≡ 200) ↔ ((tok : Text) × (generated ≡ some tok))
  unfolding issue write_error write_json
  status-issue none = (λ e. absurd (omega arith), λ h. cc (h.1))
  status-issue (some tok) = (λ e. (tok, refl), λ h. refl)

  status-answer_credentials :
      (o : Option (Text × Text))
      → ((answer_credentials cfg crypto random now r ts o).0.status ≡ 200) ↔ (
          (o ≡ some (cfg.client_id, cfg.client_secret))
          × (form_value r (codes "grant_type") ≡ codes "client_credentials")
          × ((tok : Text) × (generate_token crypto cfg.hmac_secret random ≡ some tok)))
  unfolding write_error
  status-answer_credentials none = (λ e. absurd (omega arith), λ h. cc (h.0))
  status-answer_credentials (some (id, secret)) = ground (
    arith,
    eq_iff (form_value r (codes "grant_type")) [],
    eq_iff (form_value r (codes "grant_type")) (codes "client_credentials"),
    eq_iff id cfg.client_id,
    eq_iff secret cfg.client_secret,
    status-issue (generate_token crypto cfg.hmac_secret random),
  )

  -- The handler answers 200 exactly if the request presents the configured credentials, asks for
  -- the grant client_credentials, and a token can be generated.
  pub oauth_issues_iff : ((oauth_token_handler cfg crypto random now r ts).0.status ≡ 200) ↔ (
      Presents r cfg.client_id cfg.client_secret
      × (form_value r (codes "grant_type") ≡ codes "client_credentials")
      × ((tok : Text) × (generate_token crypto cfg.hmac_secret random ≡ some tok)))
  unfolding oauth_token_handler
  oauth_issues_iff =
      let (to, from) = status-answer_credentials (parse_oauth_credentials r) in
      let (present, parsed) = parse_oauth_credentials_iff r cfg.client_id cfg.client_secret in
      (
        λ e. let (creds, grant, generated) = to e in (present creds, grant, generated),
        λ h. from (parsed h.0, h.1, h.2),
      )

  -- Whatever the request, the handler fails and leaves the store as it was, or sends the token that
  -- was generated and stores it for an hour.
  pub oauth_token_handler-Issuing :
      Issuing
        (generate_token crypto cfg.hmac_secret random)
        now
        ts
        (oauth_token_handler cfg crypto random now r ts)
  unfolding oauth_token_handler
  oauth_token_handler-Issuing = answer_credentials-Issuing (parse_oauth_credentials r)
