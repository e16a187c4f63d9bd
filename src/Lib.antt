-- ===== src/Lib.antt =====
-- Kryneth OSS, an HTTP gateway between AI agents, language models and tools, written in Rust.
--
-- A request passes the authentication, the billing guard, the rate limiter and the agent guardian,
-- may be answered from the L1 cache, has its tools shortened by the tool router, and is sent to a
-- model by the router in the form of its provider. The tool calls of a model's answer go through
-- the execution service, which claims each operation in the execution store before it calls the
-- tool, so that an operation is not done twice. The prices of the requests come from the billing
-- table.
--
--   Execution         the execution service (src/usecases/execution_service.rs), its types
--                     (src/domain/execution.rs, src/domain/execution_policy.rs) and the OSS store
--                     (`MokaExecutionStore` of src/infrastructure/oss_adapters.rs). Execution.Store
--                     has the store's operations, each as a read and a write; Execution.Identity the
--                     ids and the idempotency key; Execution.Policy `resolve_tool_policy`; and
--                     Execution.Service `execute_tool` over the port `ExecutionStore`, which the
--                     store's operations fill as `moka`.
--   RateLimit         src/api/middleware/rate_limit.rs and `OssRateLimit`; RateLimit.Race has the
--                     atomic steps of concurrent requests.
--   Router            src/infrastructure/llm_router.rs: Router.Selection picks the targets,
--                     Router.Failover sends the request, Router.Rewrite has `rewrite_model_field`.
--   Guardian          src/usecases/behavior_guard.rs: Json, Extract, Hash and Limits.
--   Cache             src/infrastructure/l1_cache.rs.
--   Billing           src/domain/billing.rs.
--   Config            the routing configuration of src/domain/models.rs.
--   Api               src/api: Api.Token, Api.Auth and Api.Keys are middleware/auth.rs,
--                     Api.Context the trace context, the billing guard and the layers of the
--                     routes (routes.rs).
--   Errors            src/error.rs.
--   Mcp               Mcp.Scan and Mcp.Registry are src/infrastructure/mcp_registry.rs: the byte
--                     machine that looks for a tool's name in a body, and the registry; Mcp.Client
--                     is src/infrastructure/mcp_client.rs.
--   Agentic           Agentic.Session is src/usecases/agentic_tracker.rs, Agentic.Orchestrator
--                     src/usecases/agentic_orchestrator.rs with the warm-ups that it spawns.
--   Tools             src/usecases/tool_router.rs: Strip and Inject shorten the tools of a request,
--                     Phantom answers the phantom tool.
--   Providers         src/infrastructure/providers: Extract has `extract_calls` of the plugins,
--                     Anthropic, OpenAi and Gemini the translations. Json is `serde_json::Value`.
--   Prelude           the shared helpers: texts as lists of code points and bytes, maps as
--                     association lists, machine arithmetic.
--
-- A shared state is passed on explicitly: `World` for the execution service, the store or the
-- buckets for the others. An asynchronous call is one step, but where the interleaving matters: the
-- store's operations are taken apart into a read and a write (`read`, `claim_write`, `mark_write`,
-- `transition_write`), of which Execution.Store.Interleaved has the histories, with expiries among
-- them (Execution.Store.History has those of whole operations); the rate limiter is taken apart into
-- its atomic operations (`Race.Event`); and the task of a tool call may end after its caller has
-- given up (`complete_task`). Times are milliseconds; `u32` and `u64` wrap
-- around as in a release build. Every loop is structural recursion, so no fuel is needed, but for
-- the decimal digits of a number, where the number itself is enough, and the 64 bits of `xor`.
--
-- Parameters stand for what is outside the repository: SHA-256 and the hasher of ahash, Unicode
-- lower-casing, the parsers and printers of simd_json and serde_json, the values of headers
-- (crate http), the decoding of tokens, UUIDs, AES, the clocks, the network, the environment, and
-- the arithmetic of floating-point numbers. The building of a provider's request is a
-- parameter of the failover loop. The expiry and eviction of the other caches are left out: an entry
-- that is gone is absent.
--
-- Not modelled: the proxy pipeline and the handlers, which put the parts together around streams of
-- axum; the Bedrock plugin; and the start-up.
pub mod Prelude
pub mod Config
pub mod Execution
pub mod RateLimit
pub mod Router
pub mod Guardian
pub mod Json
pub mod Tools
pub mod Providers
pub mod Api
pub mod Errors
pub mod Mcp
pub mod Agentic
pub mod Cache
pub mod Billing
