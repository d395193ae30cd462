-- ===== src/Api/Effects.antt =====
-- What a handler does beside its result: the calls that it makes of the client, and the gRPC
-- errors that it counts. One rule for each way to build a handler.
use headtotails.Prelude.{
  ◌≡◌, ◌≢◌, refl, sym, ap, ◌∙◌, List, [], ◌∷◌, ◌++◌, append-nil, append_assoc,
}
use headtotails.Proto.{Code, GrpcError, Outcome, ok, err}
use headtotails.Headscale.{Rpc, Reply, HeadscaleClient}
use headtotails.Api.Errors.Status.{grpc_status_ne_200, write_error-fails}
use headtotails.Api.Http.{Request, Response, write_error}
use headtotails.Api.Handler.{World, Flow, done, next, Handler, pure, respond, continue, call, ◌>>=◌}
use headtotails.Api.Errors.{grpc_status_to_http, write_grpc_error, or_grpc_error, call_or_error}

-- A property of the calls made, the errors counted and the result.
abbrev pub Effect : Type 0 → Type 1
Effect A = List Rpc → List Code → Flow A → Type 0

-- From any world, `m` appends calls and errors that have the property with its result.
pub record Does {S A : Type 0} (m : Handler S A) (P : Effect A) : Type 0 where
  pub at :
      (w : World S)
      → (t : List Rpc) × (es : List Code) × ((m w).1.calls ≡ w.calls ++ t)
        × ((m w).1.grpc_errors ≡ w.grpc_errors ++ es)
        × P t es (m w).0

module _ {S A : Type 0} {P : Effect A} where
  pub Does-pure : (a : A) → P [] [] (next a) → Does {S = S} (pure a) P
  Does-pure a h = record { at = λ w. ([], [], sym (append-nil _), sym (append-nil _), h) }

  pub Does-respond : (r : Response) → P [] [] (done r) → Does {S = S} (respond r) P
  Does-respond r h = record { at = λ w. ([], [], sym (append-nil _), sym (append-nil _), h) }

  pub Does-write_grpc_error :
      (r : Request) (e : GrpcError)
      → P [] (e.code ∷ []) (done (write_error (grpc_status_to_http e.code) e.text))
      → Does {S = S} (write_grpc_error r e) P
  unfolding write_grpc_error
  Does-write_grpc_error r e h = record { at = λ w. ([], e.code ∷ [], sym (append-nil _), refl, h) }

-- The result of a call is what the client answers in some state.
pub Does-call :
    {S : Type 0} (hs : HeadscaleClient S) (q : Rpc) {P : Effect (Outcome (Reply q))}
    → ((s : S) → P (q ∷ []) [] (next (hs [] q s).0))
    → Does (call hs q) P
unfolding call
Does-call hs q h = record { at = λ w. (q ∷ [], [], refl, sym (append-nil _), h w.upstream) }

module _ {S A B : Type 0} where
  -- After what the first part does, the second part must complete the property.
  abbrev pub Rest : Effect B → (A → Handler S B) → Effect A
  Rest Q f t es (done r) = Q t es (done r)
  Rest Q f t es (next a) = Does (f a) (λ t' es' x. Q (t ++ t') (es ++ es') x)

  join :
      (Q : Effect B) (f : A → Handler S B) (w : World S) (t : List Rpc) (es : List Code)
      (x : Flow A) (w' : World S)
      → w'.calls ≡ w.calls ++ t
      → w'.grpc_errors ≡ w.grpc_errors ++ es
      → Rest Q f t es x
      → (t' : List Rpc) × (es' : List Code) × ((continue (x, w') f).1.calls ≡ w.calls ++ t')
        × ((continue (x, w') f).1.grpc_errors ≡ w.grpc_errors ++ es')
        × Q t' es' (continue (x, w') f).0
  join Q f w t es (done r) w' p q h = (t, es, p, q, h)
  join Q f w t es (next a) w' p q h =
      let (t', es', p', q', h') = h.at w' in
      (
        t ++ t',
        es ++ es',
        p' ∙ ap (λ c. c ++ t') p ∙ append_assoc _ t t',
        q' ∙ ap (λ c. c ++ es') q ∙ append_assoc _ es es',
        h',
      )

  pub Does-bind :
      (m : Handler S A) (f : A → Handler S B) (Q : Effect B) → Does m (Rest Q f) → Does (m >>= f) Q
  Does-bind m f Q h = record {
    at = λ w. let (t, es, p, q, x) = h.at w in join Q f w t es (m w).0 (m w).1 p q x;
  }

-- The client answered a call in some state: with an error, which the response reports by the status
-- of its code, or with a value.
module _ {S : Type 0} (hs : HeadscaleClient S) (q : Rpc) where
  abbrev pub Reported : Response → Type 0
  Reported x =
      (s : S) × (e : GrpcError) × ((hs [] q s).0 ≡ err e)
      × (x ≡ write_error (grpc_status_to_http e.code) e.text)
      × (x.status ≢ 200)

  abbrev pub Granted : Reply q → Type 0
  Granted a = (s : S) × ((hs [] q s).0 ≡ ok a)

  pub reported :
      (s : S) (e : GrpcError)
      → (hs [] q s).0 ≡ err e
      → Reported (write_error (grpc_status_to_http e.code) e.text)
  reported s e p = (s, e, p, refl, write_error-fails e.text (grpc_status_ne_200 e.code))

-- A call whose failure ends the request, and what follows its success.
module _ {S B : Type 0} (hs : HeadscaleClient S) (r : Request) (q : Rpc) (Q : Effect B) where
  abbrev pub Failed : GrpcError → Type 0
  Failed e = Q (q ∷ []) (e.code ∷ []) (done (write_error (grpc_status_to_http e.code) e.text))

  settle :
      (f : Reply q → Handler S B)
      → ((s : S) (e : GrpcError) → (hs [] q s).0 ≡ err e → Failed e)
      → ((s : S) (a : Reply q) → (hs [] q s).0 ≡ ok a → Does (f a) (λ t es x. Q (q ∷ t) es x))
      → (s : S) (o : Outcome (Reply q)) → (hs [] q s).0 ≡ o
      → Does {S = S} (or_grpc_error r o) (λ t es x. Rest Q f (q ∷ t) es x)
  settle f bad good s (err e) p = Does-write_grpc_error r e (bad s e p)
  settle f bad good s (ok a) p = Does-pure a (good s a p)

  pub Does-call_or_error :
      (f : Reply q → Handler S B)
      → ((s : S) (e : GrpcError) → (hs [] q s).0 ≡ err e → Failed e)
      → ((s : S) (a : Reply q) → (hs [] q s).0 ≡ ok a → Does (f a) (λ t es x. Q (q ∷ t) es x))
      → Does (call_or_error hs r q >>= f) Q
  Does-call_or_error f bad good = Does-bind (call_or_error hs r q) f Q (
      Does-bind (call hs q) (or_grpc_error r) (Rest Q f)
        (Does-call hs q (λ s. settle f bad good s (hs [] q s).0 refl)))
