-- ===== src/Api/Sessions/Acceptance.antt =====
-- The store after a run of Sessions, and the middleware in front of it.
use headtotails.Prelude.{
  ℕ, ◌+◌, ◌≤◌, ◌≡◌, refl, sym, ◌≢◌, ◌↔◌, ◌⊎◌, inl, inr, Option, none, List, [], ◌∷◌, arith, Among,
  subst,
}
use headtotails.Text.{Text}
use headtotails.Time.{Time, hour}
use headtotails.Api.Http.{Request, Response, write_json, write_error}
use headtotails.Api.TokenStore.{TokenStore}
use headtotails.Api.Oauth.{Crypto, OauthConfig}
use headtotails.Api.Oauth.Laws.{sends, Issuing, refused, issued, oauth_token_handler-Issuing}
use headtotails.Api.Wif.Exchange.{JwtValidator, token_exchange_handler-Issuing}
use headtotails.Api.Bearer.{request_token, refusal}
use headtotails.Api.Bearer.Laws.{IsLive, refusal-none_iff}
use headtotails.Api.Sessions.{
  Action, asks, exchanges, purges, Event, Server, note, step, run, new_server, InOrder,
}
use headtotails.Api.Sessions.Validity.{
  IsFaithful, new_server-IsFaithful, advance-IsFaithful, purge-IsFaithful, store-IsFaithful,
}

note-write_error :
    (now : Time) (status : ℕ) (msg : Text) (sent : List (Text × Time))
    → note now (write_error status msg) sent ≡ sent
unfolding write_error
note-write_error now status msg sent = refl

note-sends :
    (now : Time) (tok : Text) (sent : List (Text × Time))
    → note now (sends tok) sent ≡ (tok, now) ∷ sent
unfolding write_json
note-sends now tok sent = refl

module _ {V : Type 0} (s : Server V) (last now : Time) (order : last ≤ now) (h : IsFaithful last s)
    (v : V) where
  -- The server after a handler that issues tokens.
  abbrev answered : Response × TokenStore → Server V
  answered x = record { tokens = x.1; validator_state = v; sent = note now x.0 s.sent }

  answered-IsFaithful :
      (generated : Option Text) (x : Response × TokenStore)
      → Issuing generated now s.tokens x
      → IsFaithful now (answered x)
  answered-IsFaithful generated x (refused status msg fails e e') =
      subst (λ (y : Response × TokenStore). IsFaithful now (answered y)) (λ i. (sym e i, sym e' i))
        (rw note-write_error (advance-IsFaithful s last now order h v))
  answered-IsFaithful generated x (issued tok g e e') =
      subst (λ (y : Response × TokenStore). IsFaithful now (answered y)) (λ i. (sym e i, sym e' i))
        (rw note-sends (store-IsFaithful s last now order h v tok))

-- In a faithful server the live tokens are those that were sent within the hour.
IsLive-iff :
    {V : Type 0} (s : Server V) (now : Time) (tok : Text)
    → IsFaithful now s
    → IsLive s.tokens now tok ↔ ((t : Time) × Among (tok, t) s.sent × (now ≤ t + hour))
IsLive-iff s now tok h = (
  λ live.
      let (e, found, fits) = live in
      let (t, m, exact) = h.was_sent tok e found in (t, m, omega arith),
  λ recent.
      let (t, m, fits) = recent in
      elim (h.is_kept tok t m) [
        | inl late ↦ absurd (omega arith)
        | inr (e, found, long) ↦ (e, found, omega arith)
      ],
)

module _ {V : Type 0} (cfg : OauthConfig) (crypto : Crypto) (validator : Option (JwtValidator V))
    (wif_client_id : Text) where
  act-IsFaithful :
      (a : Action) (s : Server V) (last now : Time)
      → last ≤ now
      → IsFaithful last s
      → IsFaithful now
          (step cfg crypto validator wif_client_id (record { time = now; action = a }) s)
  unfolding step
  act-IsFaithful (asks r random) s last now order h =
      answered-IsFaithful s last now order h s.validator_state _ _
        (oauth_token_handler-Issuing cfg crypto random now r s.tokens)
  act-IsFaithful (exchanges r random) s last now order h =
      answered-IsFaithful s last now order h _ _ _ (
        token_exchange_handler-Issuing cfg.hmac_secret wif_client_id crypto validator random now r
          s.tokens s.validator_state)
  act-IsFaithful purges s last now order h = purge-IsFaithful s last now order h

  run-IsFaithful :
      (evs : List Event) (s : Server V) (before last : Time)
      → InOrder before evs last
      → IsFaithful before s
      → IsFaithful last (run cfg crypto validator wif_client_id evs s)
  unfolding run
  run-IsFaithful [] s before last order h =
      advance-IsFaithful s before last order h s.validator_state
  run-IsFaithful (ev ∷ evs) s before last (le, order) h =
      run-IsFaithful evs (step cfg crypto validator wif_client_id ev s) ev.time last order
        (act-IsFaithful ev.action s before ev.time le h)

  run_new-IsFaithful :
      (evs : List Event) (v : V) (start now : Time)
      → InOrder start evs now
      → IsFaithful now (run cfg crypto validator wif_client_id evs (new_server v))
  run_new-IsFaithful evs v start now order =
      run-IsFaithful evs (new_server v) start now order (new_server-IsFaithful v start)

  -- From a new server, after any events in the order of the clock, in which the store is purged at
  -- any times: a request is let in exactly if it carries the API key of headscale, or a token that
  -- was sent to a client at most an hour ago.
  pub accepted_iff :
      (evs : List Event) (v : V) (start now : Time) (key : Text) (r : Request)
      → InOrder start evs now
      → (refusal (run cfg crypto validator wif_client_id evs (new_server v)).tokens key now r
          ≡ none)
        ↔ ((request_token r ≢ [])
            × ((request_token r ≡ key)
                ⊎ ((t : Time) × Among
                      (request_token r, t)
                      (run cfg crypto validator wif_client_id evs (new_server v)).sent
                    × (now ≤ t + hour))))
  accepted_iff evs v start now key r order =
      let s = run cfg crypto validator wif_client_id evs (new_server v) in
      let (to, from) = refusal-none_iff s.tokens key now r in
      let (recent, live) =
        IsLive-iff s now (request_token r) (run_new-IsFaithful evs v start now order) in
      (
        λ e. ((to e).0, elim (to e).1 [ inl k ↦ inl k | inr l ↦ inr (recent l) ]),
        λ h. from (h.0, elim h.1 [ inl k ↦ inl k | inr l ↦ inr (live l) ]),
      )
