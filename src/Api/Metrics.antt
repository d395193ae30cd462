-- ===== src/Api/Metrics.antt =====
-- internal/api/metrics_catalog.go, metrics_docs.go and metrics.go: the custom metrics, the collectors
-- that are registered for them, and the page that documents them.
pub mod Docs
use headtotails.Prelude.{
  ◌≡◌, Bool, true, false, Option, none, some, List, [], ◌∷◌, ◌++◌, if◌then◌else◌,
}
use headtotails.Text.{Text, codes, ◌==◌}
use headtotails.Config.{join_comma}

pub record MetricDoc : Type 0 where
  pub name : Text
  pub metric_type : Text
  pub help : Text
  pub labels : List Text
  pub notes : Text

unfoldable pub custom_metric_docs : List MetricDoc
custom_metric_docs =
    record {
      name = codes "headtotails_requests_total";
      metric_type = codes "counter";
      help = codes "Total number of HTTP requests handled by headtotails.";
      labels = codes "method" ∷ codes "path" ∷ codes "status" ∷ [];
      notes =
          codes "path uses the chi route pattern when available "
          ++ codes "to avoid high-cardinality labels from dynamic IDs.";
    }
    ∷ record {
      name = codes "headtotails_request_duration_seconds";
      metric_type = codes "histogram";
      help = codes "Duration of HTTP requests handled by headtotails.";
      labels = codes "method" ∷ codes "path" ∷ [];
      notes = codes "uses default Prometheus histogram buckets (prometheus.DefBuckets).";
    }
    ∷ record {
      name = codes "headtotails_grpc_errors_total";
      metric_type = codes "counter";
      help = codes "Total number of gRPC errors returned by headscale.";
      labels = codes "grpc_code" ∷ [];
      notes =
          codes "increments when handler paths call writeGRPCError() "
          ++ codes "after upstream headscale failures.";
    }
    ∷ []

-- The loop over the documents.
unfoldable pub find_doc : Text → List MetricDoc → Option MetricDoc
find_doc name [] = none
find_doc name (doc ∷ docs) = if doc.name == name then some doc else find_doc name docs

-- `metricDocByName`: `none` is the panic.
unfoldable pub metric_doc_by_name : Text → Option MetricDoc
unfolding find_doc custom_metric_docs
metric_doc_by_name name = find_doc name custom_metric_docs

pub data CollectorKind : Type 0 where
  counter_vec histogram_vec : CollectorKind

-- `prometheus.NewCounterVec` and `prometheus.NewHistogramVec` with their options.
pub record Collector : Type 0 where
  pub kind : CollectorKind
  pub name : Text
  pub help : Text
  pub labels : List Text

abbrev collector : CollectorKind → MetricDoc → Collector
collector kind doc = record { kind = kind; name = doc.name; help = doc.help; labels = doc.labels }

infixr 20 ◌then_collect◌
abbrev ◌then_collect◌ : Option Collector → Option (List Collector) → Option (List Collector)
some c then_collect some cs = some (c ∷ cs)
_ then_collect _ = none

abbrev collector_of : CollectorKind → Text → Option Collector
collector_of kind name = elim (metric_doc_by_name name) [
  | none ↦ none
  | some doc ↦ some (collector kind doc)
]

-- The variables of metrics.go, in the order of `MustRegister`; `none` if one of them panics.
unfoldable pub registered : Option (List Collector)
unfolding metric_doc_by_name
registered =
    collector_of counter_vec (codes "headtotails_requests_total")
    then_collect collector_of histogram_vec (codes "headtotails_request_duration_seconds")
    then_collect collector_of counter_vec (codes "headtotails_grpc_errors_total")
    then_collect some []

abbrev introduction : Text
introduction =
    codes "# Metrics\n\n"
    ++ codes "<!-- Code generated by `go generate ./...`; DO NOT EDIT. -->\n\n"
    ++ codes "This document is generated from `internal/api/metrics_catalog.go`.\n"
    ++ codes "Custom metrics are exposed on the Prometheus scrape endpoint: `/metrics`.\n\n"

abbrev table_head : Text
table_head =
    codes "## Supported Custom Metrics\n\n"
    ++ codes "| Name | Type | Labels | Help |\n"
    ++ codes "|---|---|---|---|\n"

abbrev labels_cell : List Text → Text
labels_cell [] = codes "-"
labels_cell (l ∷ ls) = join_comma (l ∷ ls)

-- The line of the table, and the line of the notes.
unfoldable row : MetricDoc → Text
unfolding join_comma
row m =
    codes "| `"
    ++ m.name
    ++ codes "` | `"
    ++ m.metric_type
    ++ codes "` | `"
    ++ labels_cell m.labels
    ++ codes "` | "
    ++ m.help
    ++ codes " |\n"

unfoldable note : MetricDoc → Text
note m = codes "- `" ++ m.name ++ codes "`: " ++ m.notes ++ codes "\n"

-- One line after the other.
unfoldable each : (MetricDoc → Text) → List MetricDoc → Text
each line [] = []
each line (m ∷ ms) = line m ++ each line ms

abbrev notes_head : Text
notes_head = codes "## Metric Notes\n\n"

abbrev guidance : Text
guidance =
    codes "## Production Monitoring Gaps\n\n"
    ++ codes
        "The current implementation provides request totals/latency and upstream gRPC error counts.\n"
    ++ codes "For stronger production monitoring, add:\n\n"
    ++ codes "- `headtotails_http_inflight_requests` gauge for saturation and concurrency.\n"
    ++ codes "- `headtotails_headscale_rpc_duration_seconds` histogram by gRPC method/code.\n"
    ++ codes "- `headtotails_headscale_rpc_requests_total` counter by gRPC method/code.\n"
    ++ codes
        "- `headtotails_oauth_token_requests_total` counter by result (`success`, `invalid_client`, `invalid_grant`).\n"
    ++ codes
        "- Optional request/response size histograms for payload growth and cost visibility.\n\n"
    ++ codes "## Starter Alerting and SLO Signals\n\n"
    ++ codes
        "- Error rate: `sum(rate(headtotails_requests_total{status=~\"5..\"}[5m])) / sum(rate(headtotails_requests_total[5m]))`\n"
    ++ codes
        "- Latency p95: `histogram_quantile(0.95, sum by (le) (rate(headtotails_request_duration_seconds_bucket[5m])))`\n"
    ++ codes "- Upstream failures: `sum(rate(headtotails_grpc_errors_total[5m])) by (grpc_code)`\n"

unfoldable pub render_metrics_markdown : Text
unfolding each row note custom_metric_docs
render_metrics_markdown =
    introduction
    ++ table_head
    ++ each row custom_metric_docs
    ++ codes "\n"
    ++ notes_head
    ++ each note custom_metric_docs
    ++ codes "\n"
    ++ guidance
