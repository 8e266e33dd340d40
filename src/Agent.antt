-- ===== src/Agent.antt =====
-- cmd/agent/main.go: the arguments, the run of the agent, and its life under signals and a timer.
pub mod Flags
pub mod RunApp
pub mod Reported
pub mod Ending
pub mod Lifecycle
