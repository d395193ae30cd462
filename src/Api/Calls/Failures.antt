-- ===== src/Api/Calls/Failures.antt =====
-- The calls of headscale that fail, and what `writeGRPCError` of internal/api/errors.go has to make of
-- them: a client that writes its failures down observes them.
pub mod Recording
use headtotails.Prelude.{
  ℕ, ◌≡◌, ◌≢◌, refl, sym, ap, ◌∙◌, ◌⊎◌, inl, inr, Bool, true, false, Bool-cases, Option, List, [],
  ◌∷◌, ◌++◌, map, map-append, append-nil, append_assoc, none, some, ◌<◌, ◌≤◌, ltb, not, ◌&&◌,
  if◌then◌else◌, arith,
}
use headtotails.Text.{Text, codes, ◌==◌}
use headtotails.Time.{Time}
use headtotails.Proto.{
  User, Code, not_found, permission_denied, unauthenticated, already_exists, invalid_argument,
  unknown, GrpcError, Outcome, ok, err,
}
use headtotails.Headscale.{Rpc, get_policy, list_users, Reply, HeadscaleClient}
use headtotails.Api.Http.{Request, Response, url_param}
use headtotails.Api.Handler.{
  World, Flow, done, next, continue, Level, warn, error, LogEntry, call, pure, ◌>>=◌,
}
use headtotails.Api.Errors.{
  write_grpc_error, grpc_status_to_http, observe_grpc_error, or_grpc_error, call_or_error,
}
use headtotails.Api.Keys.{
  resolve_tailnet_user, resolve_among, select_user, by_name, only_user, dash, find_by_name,
  Resolved, resolved, refused, upstream, key_resolve_error, or_resolve_error, tailnet_user,
}
use headtotails.Api.Policy.{or_empty_policy, is_unset}
use headtotails.Api.Calls.{Composes, Allows, is_plain}

-- A call that failed, with its error.
pub record FailedCall : Type 0 where
  pub asked : Rpc
  pub error : GrpcError

abbrev pub failures_of : (q : Rpc) → Outcome (Reply q) → List FailedCall
failures_of q (ok a) = []
failures_of q (err e) = record { asked = q; error = e } ∷ []

-- A client that writes down which of its calls fail.
abbrev pub recording : {S : Type 0} → HeadscaleClient S → HeadscaleClient (S × List FailedCall)
recording hs ctx q (s, fs) = let (o, s') = hs ctx q s in (o, (s', fs ++ failures_of q o))

-- A policy that is not found, or of which the error is unknown, is no error to the code.
abbrev pub overlooked : Rpc → Code → Bool
overlooked get_policy not_found = true
overlooked get_policy unknown = true
overlooked _ _ = false

abbrev keep_unless : Bool → GrpcError → List GrpcError → List GrpcError
keep_unless true e es = es
keep_unless false e es = e ∷ es

-- The errors that have to be reported.
abbrev pub noticed : List FailedCall → List GrpcError
noticed [] = []
noticed (f ∷ fs) = keep_unless (overlooked f.asked f.error.code) f.error (noticed fs)

-- The HTTP status of a code of gRPC.
pub data IsStatus (c : Code) (n : ℕ) : Type 0 where
  missing : c ≡ not_found → n ≡ 404 → IsStatus c n
  forbidden : c ≡ permission_denied → n ≡ 403 → IsStatus c n
  unauthorized : c ≡ unauthenticated → n ≡ 401 → IsStatus c n
  conflict : c ≡ already_exists → n ≡ 409 → IsStatus c n
  bad : c ≡ invalid_argument → n ≡ 400 → IsStatus c n
  fault :
      c ≢ not_found
      → c ≢ permission_denied
      → c ≢ unauthenticated
      → c ≢ already_exists
      → c ≢ invalid_argument
      → n ≡ 500
      → IsStatus c n

-- A record of the log is of an error: a warning below the status 500, an error from there on.
pub record IsLogged (e : GrpcError) (l : LogEntry) : Type 0 where
  pub code : l.grpc_code ≡ e.code
  pub message : l.message ≡ e.text
  pub status : IsStatus e.code l.http_status
  pub level :
      ((l.http_status < 500) × (l.level ≡ warn)) ⊎ ((500 ≤ l.http_status) × (l.level ≡ error))

abbrev pub AreLogged : List GrpcError → List LogEntry → Type 0
AreLogged [] [] = Unit
AreLogged (e ∷ es) (l ∷ ls) = IsLogged e l × AreLogged es ls
AreLogged _ _ = ⊥

-- From one world to another, calls failed, and what had to be reported of that was, once each.
pub record Reports {S : Type 0} (w w' : World (S × List FailedCall)) : Type 0 where
  pub failed : List FailedCall
  pub logged : List LogEntry
  pub made : w'.upstream.1 ≡ w.upstream.1 ++ failed
  pub counts : w'.grpc_errors ≡ w.grpc_errors ++ map (λ e. e.code) (noticed failed)
  pub logs : w'.log ≡ w.log ++ logged
  pub one_each : AreLogged (noticed failed) logged

pub status_lem : (c : Code) → IsStatus c (grpc_status_to_http c)
unfolding grpc_status_to_http
status_lem not_found = missing refl refl
status_lem permission_denied = forbidden refl refl
status_lem unauthenticated = unauthorized refl refl
status_lem already_exists = conflict refl refl
status_lem invalid_argument = bad refl refl
status_lem _ = fault (λ e. cc) (λ e. cc) (λ e. cc) (λ e. cc) (λ e. cc) refl

pub level_lem :
    (n : ℕ)
    → ((n < 500) × ((if ltb n 500 then warn else error) ≡ warn))
      ⊎ ((500 ≤ n) × ((if ltb n 500 then warn else error) ≡ error))
level_lem n = elim (Bool-cases (ltb n 500)) [
  | inl less ↦ inl (ground (arith, less), rw less refl)
  | inr more ↦ inr (ground (arith, more), rw more refl)
]

noticed-append : (fs gs : List FailedCall) → noticed (fs ++ gs) ≡ noticed fs ++ noticed gs
noticed-append [] gs = refl
noticed-append (f ∷ fs) gs = elim (Bool-cases (overlooked f.asked f.error.code)) [
  | inl out ↦ rw out (noticed-append fs gs)
  | inr kept ↦ rw kept (ap (λ es. f.error ∷ es) (noticed-append fs gs))
]

AreLogged-append :
    (es es' : List GrpcError) (ls ls' : List LogEntry)
    → AreLogged es ls
    → AreLogged es' ls'
    → AreLogged (es ++ es') (ls ++ ls')
AreLogged-append [] es' [] ls' h h' = h'
AreLogged-append (e ∷ es) es' (l ∷ ls) ls' (h, hs) h' = (h, AreLogged-append es es' ls ls' hs h')
AreLogged-append [] es' (l ∷ ls) ls' h h' = absurd h
AreLogged-append (e ∷ es) es' [] ls' h h' = absurd h

module _ {S : Type 0} where
  pub Reports-Composes : Composes {S = S × List FailedCall} Reports
  Reports-Composes = record {
    same = λ w. record {
      failed = [];
      logged = [];
      made = sym (append-nil w.upstream.1);
      counts = sym (append-nil w.grpc_errors);
      logs = sym (append-nil w.log);
      one_each = tt;
    };
    along = λ u v w f g. record {
      failed = f.failed ++ g.failed;
      logged = f.logged ++ g.logged;
      made = rw (g.made, f.made) (append_assoc u.upstream.1 f.failed g.failed);
      counts =
          rw (g.counts, f.counts, noticed-append f.failed g.failed, map-append)
            (append_assoc u.grpc_errors _ _);
      logs = rw (g.logs, f.logs) (append_assoc u.log f.logged g.logged);
      one_each = rw (noticed-append f.failed g.failed) (
          AreLogged-append (noticed f.failed) (noticed g.failed) f.logged g.logged f.one_each
            g.one_each);
    };
  }
