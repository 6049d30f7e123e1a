-- ===== src/Lib.antt =====
-- The public REST and SSE entry of the AnvilKit Agent platform: a Gin server that authenticates a
-- request, checks it, forwards it to an owning service (Control, Knowledge, MCP) over gRPC and
-- renders the answer, or streams Control's events to the client.
--
-- The parts, and where they are:
-- * Config (internal/config/config.go): the configuration that everything starts from. Validate is
--   validate with the functions it calls, Valid says the same rules as predicates, Accepts,
--   Sections and Guard relate the two; Environment is applyEnv.
-- * Startup (internal/bootstrap): the transport of each outbound connection, chosen from the
--   configuration, the reloaders the connections share, and the cached readiness. Process is the start
--   from the file to the connections: Load, newVerifier, newGateways, newTracer, in fx's order.
-- * Identity (internal/transport/identity): Material is Parse, Reloader is New and Reload, Tracker is
--   connTracker, Rotation the server's handshakes and reloads as steps, Spiffe is ParseSPIFFE and
--   PeerPrincipal, Authz is the Authorizer, and Policy NewAuthorizer.
-- * Access (internal/transport/http/server.go, authenticate; internal/adapters/fixtureauth and
--   oidcauth): who a bearer token stands for.
-- * Errors (internal/transport/http/server.go, the envelope; internal/adapters/control/client.go,
--   MapError): an owner's gRPC status, as the public error and its response.
-- * Limiter and Stream (internal/transport/http/sse.go): streamLimiter, and streamEvents. Opening is
--   the request up to its goroutines; Stream has the two goroutines, with one action for each atomic
--   step and each ready case of a select, so that a schedule is a list of actions, down to the
--   handler's deferred join of the producer (Returned, Shutdown). Source is the client's
--   StreamEvents (internal/adapters/control/client.go), which the producer runs, and Payload
--   the documents of the frames.
-- * Preview (internal/adapters/control/preview.go): ReadPreviewArtifact and ReadSource; Handlers has
--   their routes, with GetPreview, for a caller.
-- * Body (internal/transport/http/server.go, strictBody): the strict JSON body. Body has decodeValue
--   over the tokens of Go's decoder, Tokens and Sound its two directions, Fuel its end, Request the
--   middleware with the canonical digest (internal/application/principal.go).
-- * Contract (internal/transport/http/validation.go): the refusal of a request that the contract
--   rejects, and the JSON Pointer in it.
-- * Control (internal/transport/http/handlers.go, internal/application/principal.go,
--   internal/adapters/control/client.go): the routes of operations, commands, preparations, answers
--   and transfers. Handlers calls the port, which Requests implements over the stubs of Wire; Client
--   and Public read and render the views; Scoped puts handler and client together.
-- * Server (internal/transport/http/server.go, validation.go; internal/requestid): the chain of
--   middlewares that NewServer puts round its routes, each a function of the rest of the chain, which
--   is Gin's c.Next. Server has the middlewares, Chain the routes, Decision the same told flat, Served
--   Control's routes behind the chain.
-- * Release (internal/adapters/control/release.go) and Recovery (recovery.go), Mcp
--   (internal/adapters/mcp/client.go) and Knowledge (internal/adapters/knowledge/client.go): the
--   routes of these services in the same way, with the gateways of internal/application/gateways.go.
-- Base has the names and lemmas that they share: tests and lists over the native numbers, Go maps as
-- association lists (Dict), UTF-8 bytes (Text), signed integers with int64's wrap (Int), and a
-- value with an error (Results).
--
-- Loops over data are structural recursions, and schedules are lists. The one fuel is decodeValue's:
-- each of its calls takes one unit, and each token is met by at most two of them, so that twice the
-- number of tokens and one is enough for any input (Body/Fuel). Mutexes make an operation one step. A machine integer is a natural or an integer; the one sum of two
-- configured durations, in validation, is wrapped as int64 wraps it.
--
-- Parameters stand for code that is not here: URL parsing, float comparison, X.509, PEM and digests,
-- go-oidc's token verification, the owners' generated gRPC stubs and tables of enumerators, Control's
-- answers and HTTP fetches, the lexing and encoding of JSON, what gin-contrib/sse writes of an
-- event, kin-openapi's answer on a request, and what the generated wrapper says of a parameter that
-- it cannot bind. Gin's binding of a struct reads a field without the binding's tag under its own
-- name, and the generated wrapper binds the parameters before the route's middlewares: the model
-- writes both out. A section's parameters or the arguments of a definition take them.
--
-- Not modelled: kin-openapi's routing and validation, the JSON of requests and responses beyond the
-- strict body and the frames (so also what becomes of a message that truncate cut inside a rune),
-- koanf's reading of the file and its defaults, dialling, deadlines and health checks of the gRPC
-- connections, TLS handshakes and the transports over them
-- (internal/transport/identity/credentials.go), the server's listener and its shutdown, the spans
-- and metrics, the durations of the log, what Gin's recovery does on a broken connection, the hooks
-- of fx, and the test helpers.
pub mod Base
pub mod Access
pub mod Body
pub mod Config
pub mod Contract
pub mod Control
pub mod Errors
pub mod Identity
pub mod Knowledge
pub mod Limiter
pub mod Mcp
pub mod Preview
pub mod Recovery
pub mod Release
pub mod Server
pub mod Startup
pub mod Stream
