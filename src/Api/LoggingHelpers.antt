-- ===== src/Api/LoggingHelpers.antt =====
-- internal/api/logging_helpers.go: the attributes of log records that are read off a request.
use headtotails.Prelude.{Option, none, some, [], if◌then◌else◌}
use headtotails.Text.{Text, codes, ◌==◌}
use headtotails.Api.Http.{Request}

unfoldable pub request_route : Request → Text
request_route r = if r.route == [] then codes "unknown" else r.route

-- `net.SplitHostPort` is a parameter, with none for its error.
unfoldable pub request_remote_ip : (Text → Option Text) → Text → Text
request_remote_ip split_host remote_addr = elim (split_host remote_addr) [
  | none ↦ remote_addr
  | some host ↦ host
]
