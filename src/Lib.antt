-- ===== src/Lib.antt =====
-- ObservMe, the observability extension of the Pi coding agent: the parts that decide what is kept of
-- a session and its agents, and what may leave the process.
--
-- The program runs in one JavaScript thread. A session keeps its agents in a tree tracker, whose
-- registry is a bounded map that evicts the oldest agent; it restores the identity of its own agent
-- from the session file; it derives outcomes from the events of the host; and it lets content out
-- only through the capture policy. State is passed explicitly: an operation takes the state and
-- returns the next one. An error that the code throws is `none`, or false for a check.
--
-- - Prelude: strings as UTF-16 code units, numbers as doubles, and values of unknown type.
-- - Util/BoundedMap (src/util/bounded-map.ts): insertion-ordered maps (Util/JsMap), `set` with its
--   eviction loop, and the eviction callback, which may write to the map. The theorems on the keys that
--   are kept are about callbacks that leave the keys alone (`KeepsKeys`), as the program's do. The loop
--   runs on fuel, the length of the map: each round removes one entry, and `keys-set` has what the
--   loop leaves.
-- - Util/MembershipFilter (src/util/bounded-membership-filter.ts): the Bloom filter.
-- - Pi/Lineage (src/pi/agent-lineage.ts, src/integration.ts): the data of an agent's identity.
-- - Config/Schema (src/config/schema.ts): the types of the configuration.
-- - Config/Limits (src/config/timer-limits.ts, src/config/query-limits.ts): the normalisers.
-- - Pi/Propagation (src/pi/agent-lineage.ts): the environment variables that carry lineage and identity
--   to a child process, and the child's checks of them; Context has `createAgentLineageContext`.
-- - Pi/AgentTree (src/pi/agent-tree-tracker.ts): `registerAgent`, `updateStatus`, the queries and the
--   summary, over a bounded map whose callback detaches an evicted agent from its parent. Status has
--   the statuses and their moves, Invariant well-formed registries, Preserved, Retention and Counts
--   what holds of the operations.
-- - Commands/AgentsRuntime (src/commands/obs-agents-runtime.ts): what the process shows of its agents.
-- - Pi/Subagent (src/pi/subagent-spawn.ts, src/pi/subagent-types.ts, and the bookkeeping of active spans
--   in src/pi/handler-internals.ts): Types has the session, with the registries of spawns, waits and
--   joins and the list of what the code told the telemetry library; Labels, Spans and Attributes what
--   is said; Environment the environment of a child's process; Spawn, WaitJoin and Start the handlers;
--   Runner how a settled runner ends its spawn (src/integration.ts); Observation the lineage that
--   another process reports; Accounting which failures of children were counted. Refused, EndsOnce,
--   Completes, Interrupted, TraceContext and Grandchild have what holds of them. What Node and the tracer answer
--   is a record of functions, `Platform`; times are whole milliseconds.
-- - Pi/OtelOwnership (src/pi/otel-operation-ownership.ts): flushes and shutdowns that outlive their
--   session. What happens between two awaits is one step, and a resolution that has returned is kept
--   until `finishResolution` goes on; Invariant has what holds after any sequence of them, Order where
--   a start begins.
-- - Pi/SessionCorrelation (src/pi/session-correlation.ts): the entry with the agent's identity. Accepted says
--   what a correlation is, and RoundTrip has what is stored and read back.
-- - Pi/TerminalOutcome (src/pi/terminal-outcome.ts): outcomes of messages, turns and workflows.
-- - Pi/ActiveAgentLease (src/pi/active-agent-lease.ts): the lease in an observable gauge.
-- - Pi/ChildIdentity (src/pi/child-identity.ts): what is accepted as the description of a child.
-- - Privacy/RegexSafety (src/privacy/redact.ts): the analysis that refuses custom redaction patterns
--   with catastrophic backtracking, on the tree of the pattern. Ranges has sets of code points;
--   Language says which words a tree matches.
-- - Privacy/ContentCapture (src/privacy/truncate.ts, src/privacy/content-capture.ts): the policy.
-- - Safety/DisplayBounds (src/safety/display-bounds.ts): the rows of a command's output.
--
-- The modules named Examples apply the theorems to concrete values.
--
-- Not modelled: the OpenTelemetry SDK, the host and node:crypto, which are not of this repository
-- (the digest, the sum of doubles and the redactor are arguments); the parser of patterns and the
-- rest of the redaction pipeline; the trace context and the values of a propagated lineage; the
-- validation of the configuration, queries and commands; and what
-- only renders text or names attributes.
pub mod Prelude
pub mod Util
pub mod Pi
pub mod Privacy
pub mod Commands
pub mod Config
pub mod Safety
