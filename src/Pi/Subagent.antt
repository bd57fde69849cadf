-- ===== src/Pi/Subagent.antt =====
-- src/pi/subagent-spawn.ts: the agents that a session starts, waits for and joins.
mod Examples
pub mod Accounting
pub mod Types
pub mod Labels
pub mod Spans
pub mod Attributes
pub mod Environment
pub mod Spawn
pub mod WaitJoin
pub mod Start
pub mod Runner
pub mod Observation
pub mod Refused
pub mod Ended
pub mod EndsOnce
pub mod Interrupted
pub mod Completes
pub mod TraceContext
pub mod Grandchild
