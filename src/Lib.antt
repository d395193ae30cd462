-- ===== src/Lib.antt =====
-- headtotails serves the Tailscale REST API on top of headscale's gRPC API. A request passes the
-- bearer check (or asks for a token at one of two endpoints), a handler turns it into calls of the
-- headscale client, and the answers are translated into Tailscale's JSON. This library models that
-- path and proves what each part promises.
--
-- The parts and their files; paths of the program are from the repository's root.
-- - internal/api/auth.go: Api/TokenStore (the store under its lock), Api/Oauth (POST /oauth/token),
--   Api/Bearer (the middleware). internal/api/wif.go: Api/Wif/Jwt (claims, keys, signatures),
--   Api/Wif/Validator (the check of a JWT, with its cache of keys), Api/Wif/Exchange
--   (POST /oauth/token-exchange), Api/Wif/Grants (the two composed), Api/Wif/Threads (getKey and
--   refreshJWKS as concurrent requests run them on the shared cache, one step for each part under
--   the lock). Api/Sessions puts the tokens together: a run of the server is a sequence of token
--   requests, exchanges and purges, each an atomic step with its time;
--   Api/Sessions/Seen is the store up to what requests can tell of it, a quotient.
-- - internal/api/router.go: Api/Router; logging_helpers.go: Api/LoggingHelpers. Api/Router/Routes has
--   every registration of Build in order, Api/Router/Serve the handler that Build makes of them and of
--   the middlewares, and the run of a process: requests and purges. Its other children are about such
--   runs: whom they let act (Guard, Admission), what is answered (Reach, Refusals, Service), the calls
--   on auth keys (Permissions, Tenancy), what a GET request reads (Reads), what is counted and logged
--   of a request (Counts) and of the calls that fail (Reports, by Api/Calls/Failures), the token store
--   beside Api/Sessions (Refinement) and the ticks of the purge (Same, Ticks). Chain goes from the handlers to Build, Targets goes through them one by one.
--   internal/api/metrics.go, metrics_catalog.go, metrics_docs.go: Api/Metrics, and the middleware that
--   counts in Api/Router. cmd/gen-metrics-docs: GenMetricsDocs, which writes the page of Api/Metrics.
-- - cmd/headtotails/main.go: Main (from the arguments to the server that listens, from Config, Logging
--   and Api/Router), Main/Server and Main/Loggers (what that server and its logger must be for a
--   configuration) and Main/Shutdown (the goroutine that serves and the one that waits for a signal).
--   integration/haic: Haic (headtotails in a container) and Haic/Waiting (the wait until it answers).
-- - internal/api/keys.go, devices.go, users.go, policy.go: Api/Keys, Api/Devices, Api/Users,
--   Api/Policy, one function for each handler, in the order of its calls and early returns.
--   Api/Handler is the chain of steps that a handler is: it goes on or ends with a response, over a
--   world that records the calls made, the errors counted and the records logged. Api/Errors is
--   internal/api/errors.go, Api/Http the requests and responses, Api/Effects and Api/Calls the rules
--   for what a chain of steps does, Api/Endpoints a table of what each simple handler is asked for.
-- - internal/headscale/client.go: Headscale (the interface that handlers receive), Headscale/Client
--   (New, and the implementation over gRPC), Headscale/Service (the gRPC service behind it, a
--   parameter). internal/headscale/mock_client.go: Headscale/MockClient (each method by the values
--   that testify returns for its call) and, below it, the mock as the interface.
-- - internal/model and internal/translate: Model and Translate. internal/config: Config.
--   internal/logging: Logging.
-- - Proto has the messages of headscale's generated package v1, Text, Time and Dict what is used of
--   Go's strings, strconv, time and maps; Prelude the shared names of the library, Tests a small
--   tailnet on which the theorems are tried.
--
-- Texts are lists of code points; a text that is not valid UTF-8 is not modelled. Nil and empty
-- slices are one value. Instants are nanoseconds since year 1, a number without a bound; the
-- arithmetic on durations keeps the wrap-around of int64, uint64 identifiers are bounded where they
-- are read, and the exponent of an RSA key wraps at 64 bits. The clock reads no time before 1970.
-- Recursion is structural, but for three loops on fuel: the decimal print takes one more than the
-- number, which bounds its digits; the search for the root of the repository one more than the
-- length of the directory, which gets shorter with every round; the wait for the container 121
-- rounds of at least half a second for its minute.
--
-- Code outside the repository is a parameter: the gRPC service, JSON and base64, HMAC, RSA and ECDSA,
-- the random bytes, the issuer's answers over HTTP, the environment, the files of the system, the
-- dialling of gRPC, the durations that are measured, Docker, testify, lower case outside ASCII, and of
-- package chi what it finds for a method and a path: the theorems hold for every search, and those
-- that name an endpoint say under which finding.
-- Two hypotheses are made of a client: that it is scoped, as the client of Headscale/Client
-- is, and that a policy which was accepted is the one returned next. Of testify, Headscale/MockClient
-- supposes what it documents of the return values of a call.
--
-- The run of a process in Api/Router takes the requests one at a time, each with the whole of its
-- effect on the token store, the counters, the log and the client, although net/http serves them
-- concurrently: the theorems are about such sequences, and say nothing of the order in which two
-- requests that overlap are counted or logged. Only the key cache of Api/Wif/Threads is modelled with its interleavings.
-- The validator of JWTs that the router calls is any function, where the code builds an
-- OidcValidator of the configuration; Api/Wif/Grants is about that one.
--
-- Not modelled: the 30 seconds after which the context of Shutdown ends, so that nothing is said of
-- when a shutdown returns; chi's middlewares RequestID, RealIP and Recoverer (a request comes in with
-- its id and its address as they are after them); two token requests at once inside one handler, which share no
-- state but the store under its lock; a function given to the mock client that keeps a state or
-- panics itself.
mod Prelude
pub mod Text
pub mod Dict
pub mod Time
pub mod Model
pub mod Proto
pub mod Headscale
pub mod Config
pub mod Logging
pub mod Translate
pub mod Api
pub mod Main
pub mod GenMetricsDocs
pub mod Haic
mod Tests
