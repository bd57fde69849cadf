-- ===== src/Commands.antt =====
-- src/commands: the commands that show what the extension knows.
pub mod AgentsRuntime
