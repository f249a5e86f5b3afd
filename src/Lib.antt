-- ===== src/Lib.antt =====
-- OpenClaw Managed Agents: an orchestrator that runs agent sessions in containers behind an HTTP API.
-- A request passes the rate limiter and the bearer-token middleware; the router then reads and writes
-- the stores and starts background runs, each of which waits for a container, posts the message to it
-- and records the usage when the turn is done. Events for a busy session wait in its queue.
--
-- Which file models which part (paths from the root of the repository):
--   * Types: the records of src/orchestrator/types.ts and src/store/types.ts.
--   * JsMap: JavaScript's `Map` with string keys, in insertion order.
--   * Agents, Environments, Sessions, Queue, Audit, Vaults, Containers, Users: the classes `InMemory*Store` of
--     src/store/memory.ts, a function for each method, in the methods' order. A method that mutates
--     returns the new store; `Date.now()` and `nanoid()` are arguments.
--   * Http: the header expression and the trims of src/auth.ts and src/rate-limit.ts.
--   * RateLimit: `RateLimiter` and `createRateLimitMiddleware` of src/rate-limit.ts.
--   * Auth: `createAuthMiddleware` of src/auth.ts.
--   * Router: `AgentRouter` of src/orchestrator/router.ts. Router/State holds its state,
--     Router/Sessions `createSession` and `assertQuota`, Router/Runs the background runs, Router/Streams
--     the streamed ones, Router/Approvals the pending approvals, Router/Spawn the credentials and the
--     network of a container, Router/Workspace the paths of workspace files.
--   * Server: the scope of a caller and the session routes of src/orchestrator/server.ts, with
--     Server/Idempotency for the replies to posted events.
--   * Pool: `SessionContainerPool` of src/runtime/pool.ts: the tables, with Pool/Active for the containers of
--     sessions, Pool/Warm for those kept ready, and Pool/Schedule for the orders in which calls interleave.
--   * Gateway: `GatewayWebSocketClient` of src/runtime/gateway-ws.ts; Gateway/Handshake is its `connect`.
--   * EventLog: `PiJsonlEventReader` of src/store/pi-jsonl.ts; EventLog/Lines and EventLog/Events are its
--     `mapLineToEvents`.
--   * Base64: the base64url of the next two.
--   * VaultCrypto: `VaultCrypto` of src/crypto/vault-crypto.ts.
--   * ParentToken: `ParentTokenMinter` of src/runtime/parent-token.ts.
--   * Pricing: the price tiers and the cost of a turn of src/orchestrator/zenmux-pricing.ts.
--   * Sse: `parseSse` of sdk/typescript/src/sse.ts.
--   * Tests: the theorems at concrete inputs.
--
-- An async method of the router is cut at its awaits: each stretch that runs without a pause is a
-- function, and Router/Runs/Schedule puts the calls of clients and the resumptions of tasks into any
-- order. The `finalize` of a stream and a stream's failure are one step each, with no other call while they
-- await. What the pool does is an argument (whether it has a gateway client, whether the abort
-- succeeds) or recorded (`evicted`).
--
-- The pool is cut at its awaits in the same way: what a probe, a rename or a spawn gives is an argument of
-- the stretch that follows it, and the containers that are stopped and the networks that are removed are recorded.
-- The router's model does not call the pool's: each takes from the other what it is told. The gateway
-- client records each answer that a request gets; its `connect` is one step.
--
-- A session is deleted in two stretches, with the await of its eviction between them. In `acquireForSession` an acquire
-- looks for a container up to three times; the stretches are functions, and a history has them in any order.
--
-- Numbers are natural numbers. The rate limiter counts tokens in 60000ths, so the refill of a
-- millisecond is `rpm` and nothing is rounded; the source's doubles can differ from this in their last
-- bit, so a refused caller that comes back at the advised time can be refused again there, and nothing is said of
-- the advice here. Costs are counted in a smallest unit instead of a double, and the arithmetic of prices is a parameter. The
-- SHA-256 digest of a token is a parameter, and so are the HMAC, base64, AES-GCM, UTF-8 and JSON of Node, under the
-- hypotheses of `Base64.Inverse.IsCodec`, `ParentToken.Signed.IsNode` and `VaultCrypto.RoundTrip.IsCipher`. Every
-- function is structurally recursive but the inner loop of the event stream and the decimal text of a number, whose
-- fuel is one more than the number. The loop's fuel is the length of its buffer; `Sse.Ends.read_ends` says that this is enough.
--
-- Not modelled: the SQLite store (the same interface over SQL), Docker, the signature of a container's
-- configuration, the files of event logs, the other routes and the validation of the HTTP server, the cache of the
-- price catalog, the portal, the rest of the SDKs, logging and metrics. Messages of errors are left out where only their code counts.
pub mod Prelude
pub mod JsMap
pub mod Types
pub mod Http
pub mod Sessions
pub mod Queue
pub mod Agents
pub mod Vaults
pub mod Users
pub mod Environments
pub mod Containers
pub mod Audit
pub mod RateLimit
pub mod Auth
pub mod Router
pub mod Gateway
pub mod Pool
pub mod Sse
pub mod Pricing
pub mod Base64
pub mod VaultCrypto
pub mod ParentToken
pub mod EventLog
pub mod Server
pub mod Tests
