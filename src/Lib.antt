-- ===== src/Lib.antt =====
-- The core of the agent platform, modelled from its Python source under app/.
--
-- A request to a conversation passes the check of its API key and the rate limiter, is checked for
-- its identifiers and paths, passes the check of the context window, takes the lock of its
-- conversation, and is sent to a container: the one of its conversation or one of the warm pool,
-- with its files written into it. A proxy is its only way out, and adds the credentials that it is
-- not told. The container answers with a stream of events, which is cut at blank lines, parsed,
-- translated to the events of the host under consecutive numbers, and passed on; at the end the
-- usage is normalised, its cost is computed and the context window is updated. Calls of other
-- systems go through a circuit breaker or a loop of retries, and what is logged is masked first.
--
-- Which file models which part:
-- - Circuit: `CircuitBreaker` of app/infrastructure/circuit_breaker.py. `execute` is given the two
--   times at which it reads the clock, and a function that acts on a world. Circuit/Invariant has
--   the states that its operations reach, Circuit/Calls what a call does.
-- - Retry: `calculate_delay`, `retry_async` and `retry_sync` of app/infrastructure/retry.py. A run
--   is its outcome, the number of calls and the delays; what the function does may differ from
--   attempt to attempt.
-- - Lock: `DistributedLockManager` of app/infrastructure/distributed_lock.py, and which error the
--   handler around `acquire` in app/services/execute_service.py catches. Redis is the parameter of
--   Lock/Server: keys that expire, with the documented behaviour of GET, SET NX PX, DEL and
--   PEXPIRE. The Lua scripts run at once, each at one time. Lock/Holder has the other clients as a
--   relation on states, Lock/Waiting the loop of `acquire` over the rounds that it goes through.
-- - RateLimit: the script, `_check_rate_limit` and `_get_rate_limit_key` of
--   app/middleware/rate_limit.py. RateLimit/Server is the parameter for the sorted sets, as the
--   number of entries inside the window. Redis starts the random numbers of a script alike on each
--   run, so that a member depends on the printed time only; how a time is printed is a parameter.
--   Window and Bound have which requests pass, Wait how long a refusal asks to wait.
-- - Auth: `AuthMiddleware` of app/middleware/auth.py, as a function from a scope to what happens
--   with it. SHA-256 is a parameter. Auth/Gate has which requests go on.
-- - Masking: `sanitize_log_data` of app/utils/sensitive_filter.py; how `re` folds the case of a
--   text is a parameter. Masking/Places has what stands at each place of the masked data.
-- - Security: app/utils/security.py. Pattern has the regular expressions, Traversal the check of
--   paths, Names the identifiers, Filename the file names. The class of word characters and the
--   resolution of paths by the file system are parameters.
-- - Progress: `get_initial_message` and its tables, of app/utils/progress_messages.py.
-- - Streaming: the counter and the event constructors of app/utils/streaming.py.
-- - Execute: parts of app/services/execute_service.py. Usage has `_normalize_usage` and the cost of
--   app/models/model.py; Context the context window, with `update_context_status` of
--   app/repositories/conversation_repository.py; Translate `_translate_event`; Stream the buffer
--   loop, `_parse_sse_event` and `event_to_sse_bytes`; Mcp the settings of MCP servers, with
--   `update_mcp_header_rules` of app/services/container/orchestrator.py.
-- - Container: app/services/container/models.py; Container/Gc one cycle of
--   app/services/container/gc.py, over the containers that Docker lists. Redis, Docker and the
--   proxies answer by one state, which is a parameter; Redis is taken to answer.
-- - Container/Orchestrator: get_or_create, execute and destroy of
--   app/services/container/orchestrator.py, over the hashes in Redis, the proxies that run and a
--   world. Redis answers; the time to live that a key was given last is kept, and no key expires
--   during a call. Mapping has what get_or_create leaves in Redis, Stuck what a failed recovery
--   leaves.
-- - Container/WarmPool: app/services/container/warm_pool.py. A call runs with no other in between;
--   the tasks of `asyncio.gather` take their steps in the order of a schedule; background tasks are
--   recorded. Accounts has where the containers go, Sizes how many there are.
-- - Proxy: app/services/proxy/domain_whitelist.py, where the parsing of URLs and `lower` are
--   parameters, app/services/proxy/dns_cache.py, for one caller at a time, and the credential
--   proxy, app/services/proxy/credential_proxy.py: Connection reads a request off the lines that
--   arrive, Headers and Answer have what is sent on and what is answered, Chunked the chunked
--   encoding with a decoder by its standard, and Server the handlers, from `_handle_connection` on.
--   The network, the signature of botocore and the decoding of bytes are parameters.
--   Server/Permitted, Injected and Routes have what a container can reach, and how.
-- - Workspace: app/services/workspace/file_sync.py. Paths has the paths that are left out and the
--   file records, Transfer the commands that write a file into a container, over a parameter that
--   runs them, Sync the two directions and the session files. Shell is a small shell that
--   understands the commands.
-- - Execute/Services, Execute/Files, Execute/Relay and Execute/Run: `execute_streaming` itself. The
--   services that it calls act on a world, which is a parameter; the answers of the container are
--   read before its events are handled one after another. Execute/Run/Cleanup has how a run ends.
-- - Json: values of JSON and the dictionary operations on them. Base: what all files share.
-- - The Tests files hold small instances of the parameters, and the theorems at concrete inputs.
--
-- Numbers: times, tokens and prices are naturals; delays are whole milliseconds; a ratio is
-- compared by multiplying out. Texts that are analysed are lists of code points. The loop on the
-- buffer has one more than the buffer's length as fuel, and each round shortens the buffer. The
-- digits of a number have the number as fuel, since each division makes it smaller; the slices of a
-- text have its length, since each takes a character at least; the seconds in a number of ticks
-- have the ticks. The loops of a retried call recurse on the attempts left, that of the warm pool's
-- acquire on the identifiers that wait, that of `acquire` on a list of rounds.
--
-- Not modelled: the calls of Docker in app/services/container/lifecycle.py, the rest of the
-- workspace services, the masking of headers and URLs, the skills, the registry of MCP servers, the
-- simple chats, the HTTP layer, metrics and the audit log, and the database: mostly calls of
-- Docker, AWS, SQLAlchemy and FastAPI. The decoding of bytes is a parameter. Cancellation of a run
-- is not modelled. Logging, metrics and audit entries are left out everywhere. What two calls do to
-- each other across their waits is modelled for the lock, and for the tasks that the warm pool
-- gathers.
pub mod Auth
pub mod Base
pub mod Circuit
pub mod Container
pub mod Execute
pub mod Json
pub mod Lock
pub mod Masking
pub mod Progress
pub mod Proxy
pub mod RateLimit
pub mod Retry
pub mod Security
pub mod Streaming
pub mod Workspace
