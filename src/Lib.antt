-- ===== src/Lib.antt =====
-- GemGate, a gateway between HTTP clients and AI providers. A request passes the CORS policy and
-- the clients' authentication, is counted against its client's rate limit, finds its provider by
-- its path, and is sent on with the provider's credentials through a transport that a circuit
-- breaker guards. Rings of log entries and counters record what happened.
--
-- Files, and what they model:
--   Prelude    names of the library, Boolean tests, lists, results
--   Text       Go strings as lists of bytes, with the functions of package strings
--   Header     Go's http.Header as a list of keys with their values
--   Cors       internal/gateway/cors.go: newCORSPolicy, handle and what it calls; Cors/Verdict states
--              its decision as one condition
--   ClientIp   internal/gateway/trusted_proxy.go: the client's address behind proxies
--   Access     internal/gateway/operations_auth.go, authenticate of internal/gateway/proxy.go
--   RateWindow internal/gateway/ratelimit.go: the sliding window of one client
--   RateLimit  internal/gateway/ratelimit_backend.go: the memory backend and the manager
--   Route      resolveProvider and prepareBody of internal/gateway/proxy.go, singleJoiningSlash
--   Forward    internal/gateway/http_helpers.go: which headers are copied
--   Provider   internal/provider/catalog.go: the catalogue and ApplyHeaders
--   Upstream   the headers of the request that proxy of internal/gateway/proxy.go sends, and the
--              trace context that internal/gateway/provider_metrics_transport.go injects into them
--   Circuit    internal/gateway/circuitbreaker.go; Circuit/Requests interleaves its requests
--   Transport  internal/gateway/provider_metrics_transport.go: what RoundTrip does before and
--              after the exchange, and the body that ends it
--   Report     internal/gateway/http_helpers.go: request ids, errors, levels, redaction
--   Config     internal/config/config.go: the configuration's records; Config/Defaults is
--              applyDefaults, Config/Secrets resolveSecretFiles, Config/Numbers parseDuration and
--              parseBytes, Config/Proxies parseTrustedProxies, Config/Checks and Config/Validation
--              validate, and Config/Load the rest of Load
--   Gateway    the gateway's state; Gateway/Snapshot and Gateway/Reload are
--              internal/gateway/runtime.go, Gateway/Streams copyAndFlush, Gateway/Exchange and
--              Gateway/Proxy proxy of internal/gateway/proxy.go, Gateway/Operations the pages of
--              health.go, readiness.go and safeConfig, Gateway/Start New of
--              internal/gateway/gateway.go, and Gateway/Replies, Gateway/Settling and Gateway/Serve
--              its ServeHTTP and serveHTTP with
--              internal/gateway/operations_listener.go; Gateway/Console is ConfigSnapshot, by which
--              the terminal interface sees the gateway
--   Table      maps from names as association lists
--   LogRing    internal/gateway/logring.go
--   Metrics    internal/gateway/metrics.go: counters, the metrics of each provider and its health;
--              Metrics/Report is its snapshots and Prometheus, and Metrics/Report/Reader reads such
--              a text by the rules of the exposition format
--   Sorting    sort.Strings and sort.Slice as an insertion sort over an order
--   Launch     cmd/gemgate/main.go: run and shutdown as the list of what they start and end;
--              Launch/Watch is watchConfig
--   Terminal   internal/tui: Terminal/Setup is setup.go, Terminal/Stats stats.go, Terminal/Layout
--              layout.go, Terminal/Helpers helpers.go, Terminal/Tables the columns and rows of logs.go,
--              providers.go and clients.go, Terminal/Screen the state of model.go with refresh and
--              resize, and Terminal/Update its Update with keys.go
-- A component's file holds its state and operations, its child modules the theorems, named for
-- what they prove, and its Tests runs of the code and the theorems at concrete inputs.
--
-- Conventions. Times and durations are natural numbers of nanoseconds, and the clock is an argument
-- of the operations that read it. A Go int that may be negative is an integer, and a uint64 counter
-- is a natural number below 2^64 whose wrap-around is written out. A method that changes its
-- receiver takes and returns it; a mutex makes each method one step. A map is an association list,
-- and the order of its list stands for the order in which range meets its keys. All recursion is on
-- lists or numbers, but for the loop of humanBytes, which has fuel for six turns: a uint64 needs five.
-- Case changes of strings are those of ASCII.
--
-- A gateway serves one request in one step: the state before it, the state after it, the reply
-- and the request that went to a provider, if any, are values. What the world does in that step is a
-- record, World of Gateway/World: the answer of the provider's server as a function of the request,
-- the writes to the client and their errors, the times, and whether the client is still there. The
-- breakers, which the code shares by pointers, are a store by the provider's name; the requests
-- that run while another is in flight are those of Circuit/Requests. The routine that copies a body
-- recurses on the reads that are made of it.
--
-- Parameters: SHA-256 in RateLimit, strconv.Itoa in Cors and Transport, net/netip and
-- net.SplitHostPort in ClientIp, and the rate-limit backend, which is an interface in the program
-- too; the Redis backend is an instance that is not modelled. In Config they are url.Parse,
-- time.ParseDuration, strconv.ParseInt, the prefixes of net/netip, the file system and the telemetry
-- settings; in Gateway reflect.DeepEqual, http.NewRequestWithContext, the headers of http.Error, the
-- texts of errors and what is told of the telemetry settings. That a response of net/http has a
-- status code, and that the end of a body is a call of Close, are hypotheses where they are used.
-- In Metrics/Report it is how package fmt writes a number and a number of seconds, which for what is
-- proved of the text is to be one line; in World the headers that OpenTelemetry's TraceContext
-- injects, none if the transport does not propagate; in Terminal how fmt and time write the cells,
-- the widths that lipgloss gives, what the tables and viewports of Bubbles keep to themselves, and the
-- random token; in Launch what the flags, the packages and the operating system answer.
--
-- Not modelled: an interleaving of a reload with the requests in flight, which keep the snapshot
-- that they began with; the settings of the servers and the timeouts of their contexts; the views of
-- the terminal interface, which style and join texts; the parsing of the flags and what the command
-- line prints; the spans of tracing; and the Redis backend, whose limiting is a script of the Redis server. YAML
-- decoding and the exchange with a provider belong to libraries.
pub mod Access
pub mod Circuit
pub mod ClientIp
pub mod Config
pub mod Cors
pub mod Forward
pub mod Gateway
pub mod Header
pub mod Launch
pub mod LogRing
pub mod Metrics
pub mod Prelude
pub mod Provider
pub mod RateLimit
pub mod RateWindow
pub mod Report
pub mod Route
pub mod Sorting
pub mod Table
pub mod Terminal
pub mod Text
pub mod Transport
pub mod Upstream
