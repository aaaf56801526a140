-- ===== src/Lib.antt =====
-- agentstrata is an agent server: an HTTP layer admits requests, an engine runs each of them
-- against a language model and its tools, and a storage backend keeps sessions, runs, approvals
-- and fences. This library models the parts that decide what is kept, who may change it, and how
-- much a run may do, and proves what these parts promise each other.
--
-- Parts, and the files that model them:
-- - Storage/Model, Storage/Contract: the records, settings and errors of app/storage/model.py and
--   app/storage/contract.py. Storage/Parsing and Storage/Codec: the JSON forms of the records,
--   with the texts of times as a parameter; a stored text is the value that it stands for,
--   with sorted keys where the code asks json.dumps for them (Sorting). Python's `==` does not
--   see the order of keys and the model's ≡ does, so theorems across a file name it.
-- - Storage/File and its children: `FileBackend` of app/storage/file_backend.py, one function for
--   each method, with the method's name, in a small state monad. A directory is a dictionary of
--   paths; the digest of a principal, the texts of times and the order of a directory's listing
--   are parameters. Requests has the session and fence methods that both backends share, and
--   Refinement compares the two.
-- - Storage/Memory and its children: `MemoryBackend` of app/storage/memory.py. State holds the
--   dictionaries; Sessions, Runs, Idempotency, Fences, Approvals and Sweep hold one function for
--   each method, with the method's name. A method takes its arguments, the time and any fresh id,
--   and the backend, and returns a result or an error with the backend it leaves. Commands has
--   the methods as data and runs sequences of them: a method awaits nothing while it holds the
--   lock, so each call is one atomic step, and an interleaving of clients is a list of calls.
--   The other children prove theorems; Storage/SessionIds does for the session ids.
-- - Engine/Limits: `TokenAccount` and `RunLimiter` of app/engine/limits.py, and the loop of
--   app/engine/runner.py that passes text parts through the limiter.
-- - Engine/Context: `prune_history` and `trim_to_context_window` of app/engine/context.py.
-- - Engine/RunState: `RunStateMachine` of app/engine/events.py.
-- - Engine/Events: the events and the public errors of app/engine/events.py. Engine/Pricing: the
--   catalog of app/engine/pricing.py. Engine/Mcp/Transport: the caps of app/engine/mcp/bounds.py.
-- - Engine/Mcp/Filtering: the names and the bounds of tool results, app/engine/mcp/filtering.py.
-- - Engine/Mcp/Manager: handles, final names, lookup, references and readiness of
--   app/engine/mcp/manager.py.
-- - Engine/Rag: chunking, `MemoryRagStore` and `RagRetriever` of app/engine/rag.py, with
--   embeddings, scores and digests as parameters.
-- - Config: app/config/resolver.py. Tiers merges one document over another with its provenance;
--   Scalars, Cli and Environment bind flags and variables to the paths of a schema, which is a
--   parameter as Python's conversions of texts are; Finalize has the defaults and the order of
--   the tiers from the environment on.
-- - Watcher: the changed paths, their category and `ReloadManager` of app/watcher/reload.py, with
--   the validation and the components that are built as parameters; a reload applies tier 8 with
--   the merge of Config.
-- - Protocol/Auth: the API key and the JWT mode of app/protocol/auth.py; `str.lower`, the digest,
--   the verification of a token and the answers of the identity provider are arguments.
-- - Protocol/RateLimit: `FixedWindowLimiter` of app/protocol/ratelimit.py.
-- - Lifecycle (Grace, Signals): app/lifecycle.py, `ShutdownManager` as a record, the signals and
--   the ends of drain tasks as steps, and the wait for the runs on a clock of ticks.
-- - Security/Audit (Lines, Proxies): app/security/audit.py; an audit event is the list of lines that
--   it logs, and ipaddress is a record of parameters.
-- - Security/Redact: the sensitive keys and the masking of app/security/redact.py, with Python's
--   lower-casing as a parameter.
-- The runner calls storage, limiter, pruning and the MCP names; these calls are not modelled, so
-- those parts meet here only in the types they share. Prelude, Json and Text hold what all parts
-- share.
--
-- Conventions. Dictionaries are association lists in insertion order, and the lemmas that need it
-- assume that each key stands once, as it does in the sessions, runs and idempotency records of
-- every reachable backend. Times and durations are natural numbers of microseconds, in the rate
-- limiter and in authentication of seconds. Usage counts are natural numbers; the runner also adds a fractional `cost_usd`, which is left out.
-- Python hands out records by reference, the model by value. A text that the program walks is a list of code
-- points without lone surrogates; other texts are opaque strings.
--
-- Fuel. The search for an unused tool name has one try more than there are used names, which the
-- theorem on `rename_collision_safe` shows to be enough. The decimal digits of n have fuel n + 1.
-- The windows of a text and the batches of chunks have one step of fuel for each code point and
-- each chunk, and take at least one in each step; the theorem on `chunk_text` shows the first to
-- be enough. The wait of the shutdown takes one snapshot for each tick of the grace and one more,
-- which the theorem on `drain_from` shows to be enough. Every other loop is structural.
--
-- Not modelled: the files, the schema and the validation of a configuration (app/config), the
-- HTTP and WebSocket routes, the RAG connectors, the PostgreSQL and Redis backends, the
-- Kubernetes watcher, the boot of the process, telemetry and the Kubernetes operator. They are
-- large or mostly calls of libraries and services whose code is not part of the repository.

pub mod Prelude
pub mod Json
pub mod Text
pub mod Config
pub mod Storage
pub mod Engine
pub mod Protocol
pub mod Security
pub mod Watcher
pub mod Lifecycle
