-- ===== src/Api/Router/Counts.antt =====
-- What `prometheusMiddleware` and `slogMiddleware` record of a request.
use headtotails.Prelude.{◌≡◌, ◌≢◌, ◌/◌, ◌⊎◌, []}
use headtotails.Text.{Text, codes}
use headtotails.Text.Decimal.{format}
use headtotails.Time.{Time}
use headtotails.Api.Http.{Response}
use headtotails.Api.Router.{Found, Sample, Observation, Access, Incoming, App}
use headtotails.Api.Router.Serve.{Setup}

-- What a request is counted, observed and logged as, given the response to it: by the pattern of its
-- route where chi names one, and otherwise, in the metrics, by its path and, in the log, as unknown;
-- with the status of the response, where the log shows 200 for one that was never written.
pub record IsOf (q : Incoming) (found : Found) (x : Response) (s : Sample) (o : Observation)
    (a : Access) : Type 0 where
  pub methods :
      (s.method ≡ q.request.method) × (o.method ≡ q.request.method) × (a.method ≡ q.request.method)
  pub routes :
      ((found.route_pattern ≢ [])
        × (s.path ≡ found.route_pattern)
        × (o.path ≡ found.route_pattern)
        × (a.route ≡ found.route_pattern))
      ⊎ ((found.route_pattern ≡ [])
          × (s.path ≡ q.path)
          × (o.path ≡ q.path)
          × (a.route ≡ codes "unknown"))
  pub statuses :
      (s.status ≡ format x.status)
      × (((x.status ≢ 0) × (a.http_status ≡ x.status)) ⊎ ((x.status ≡ 0) × (a.http_status ≡ 200)))
  pub durations : (o.took ≡ q.observed) × (a.duration_ms ≡ q.logged / 1000000)
  pub asked_by : (a.user_agent ≡ q.user_agent) × (a.request_id ≡ q.request.request_id)

-- The path of the metrics and the route of the log, for a pattern.
abbrev Named : Text → Text → Text → Text → Type 0
Named pattern path counted logged =
    ((pattern ≢ []) × (counted ≡ pattern) × (counted ≡ pattern) × (logged ≡ pattern))
    ⊎ ((pattern ≡ []) × (counted ≡ path) × (counted ≡ path) × (logged ≡ codes "unknown"))

module _ {S V : Type 0} (setup : Setup S V) where
  -- The counters of the process after `app`.
  abbrev pub Kept : App S V → App S V → Type 0
  Kept app app' =
      (app'.samples ≡ app.samples)
      × (app'.observations ≡ app.observations)
      × (app'.accesses ≡ app.accesses)
