-- ===== src/Pi.antt =====
-- src/pi: what the extension keeps about the running session and its agents.
pub mod Lineage
pub mod AgentTree
pub mod SessionCorrelation
pub mod TerminalOutcome
pub mod ActiveAgentLease
pub mod ChildIdentity
pub mod Propagation
pub mod Subagent
pub mod OtelOwnership
