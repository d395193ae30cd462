-- ===== src/Tests/Repository.antt =====
-- The pages of the metrics, and the search for the place where they are written.
use headtotails.Prelude.{
  ◌≡◌, ℕ, zero, suc, ◌+◌, ◌*◌, refl, ◌↔◌, Bool, true, Option, none, some, [], ◌∷◌, inl, inr, Among,
}
use headtotails.Text.{Text, codes, ◌==◌}
use headtotails.Api.Metrics.{MetricDoc, custom_metric_docs, metric_doc_by_name}
use headtotails.Api.Metrics.Docs.{metric_doc_by_name_iff}
use headtotails.Time.{second}
use headtotails.Haic.Waiting.{Poll, wait_for_running, Healthy, wait_for_running-Healthy}
use headtotails.GenMetricsDocs.{find_repo_root}
use headtotails.GenMetricsDocs.Root.{Nearest, find_repo_root-Nearest}

abbrev errors : MetricDoc
errors = record {
  name = codes "headtotails_grpc_errors_total";
  metric_type = codes "counter";
  help = codes "Total number of gRPC errors returned by headscale.";
  labels = codes "grpc_code" ∷ [];
  notes =
      codes
        "increments when handler paths call writeGRPCError() after upstream headscale failures.";
}

errors-Among : Among errors custom_metric_docs
unfolding custom_metric_docs
errors-Among = inr (inr (inl refl))

metric_doc_by_name_iff_example :
    (metric_doc_by_name (codes "headtotails_grpc_errors_total") ≡ some errors)
    ↔ (Among errors custom_metric_docs × (errors.name ≡ codes "headtotails_grpc_errors_total"))
metric_doc_by_name_iff_example = metric_doc_by_name_iff errors.name errors

-- A working directory two levels below the root of the repository.
abbrev exists : Text → Bool
exists path = path == codes "/r/go.mod"

find_repo_root-Nearest_example :
    (o : Option Text) × (find_repo_root exists (some (codes "/r/internal/api")) ≡ some o)
    × Nearest exists (codes "/r/internal/api") o
find_repo_root-Nearest_example = find_repo_root-Nearest exists (codes "r/internal/api")

root_found : find_repo_root exists (some (codes "/r/internal/api")) ≡ some (some (codes "/r"))
unfolding find_repo_root ◌==◌
root_found = refl

-- The service answers from the third round on.
abbrev polls : ℕ → Poll
polls zero = record { status = none; took = 5 }
polls (suc zero) = record { status = some 503; took = 5 }
polls (suc (suc n)) = record { status = some 200; took = 5 }

wait_for_running-Healthy_example :
    (b : Bool) × (wait_for_running polls 7 ≡ some b)
    × ((b ≡ true) ↔ Healthy polls (7 + 60 * second) 7 0)
wait_for_running-Healthy_example = wait_for_running-Healthy polls 7
