-- ===== src/Api/Handler.antt =====
-- What a handler acts on: the client of headscale, the metrics and the log. A handler is a chain
-- of steps, each of which goes on or ends the request with a response, as the early returns of
-- the source do.
use headtotails.Prelude.{ℕ, List, [], ◌∷◌, ◌++◌}
use headtotails.Text.{Text}
use headtotails.Proto.{Code, Outcome}
use headtotails.Headscale.{Rpc, Reply, HeadscaleClient}
use headtotails.Api.Http.{Request, Response}

-- internal/api/errors.go
pub data Level : Type 0 where
  warn error : Level

-- The attributes of an "upstream headscale error" record.
pub record LogEntry : Type 0 where
  pub level : Level
  pub method : Text
  pub route : Text
  pub http_status : ℕ
  pub grpc_code : Code
  pub request_id : Text
  pub message : Text

-- `calls` are the calls made of the client so far, `grpc_errors` the increments of the counter
-- headtotails_grpc_errors_total, `log` the records logged, each oldest first.
pub record World (S : Type 0) : Type 0 where
  pub upstream : S
  pub calls : List Rpc
  pub grpc_errors : List Code
  pub log : List LogEntry

pub data Flow (A : Type 0) : Type 0 where
  done : Response → Flow A
  next : A → Flow A

abbrev pub Handler : Type 0 → Type 0 → Type 0
Handler S A = World S → Flow A × World S

module _ {S A : Type 0} where
  abbrev pub pure : A → Handler S A
  pure a w = (next a, w)

  abbrev pub respond : Response → Handler S A
  respond r w = (done r, w)

module _ {S A B : Type 0} where
  abbrev pub continue : Flow A × World S → (A → Handler S B) → Flow B × World S
  continue (done r, w) f = (done r, w)
  continue (next a, w) f = f a w

  infixl 5 ◌>>=◌ ◌>>◌
  abbrev pub ◌>>=◌ : Handler S A → (A → Handler S B) → Handler S B
  ◌>>=◌ m f w = continue (m w) f

  abbrev pub ◌>>◌ : Handler S A → Handler S B → Handler S B
  m >> n = m >>= λ _. n

-- The response of a handler: that of an early return, or that of its last step.
abbrev pub answer : Flow Response → Response
answer (done r) = r
answer (next r) = r

module _ {S : Type 0} where
  -- One call of the client, under `r.Context()`, which carries no metadata.
  unfoldable pub call : HeadscaleClient S → (q : Rpc) → Handler S (Outcome (Reply q))
  call hs q w =
      let (r, s) = hs [] q w.upstream in
      (next r, record w { upstream = s; calls = w.calls ++ q ∷ [] })

  abbrev pub run : Handler S Response → World S → Response × World S
  run m w = let (x, w') = m w in (answer x, w')

-- The handlers proper return a response and the world that they leave.
abbrev pub HandlerFunc : Type 0 → Type 0
HandlerFunc S = Request → World S → Response × World S
