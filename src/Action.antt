-- ===== src/Action.antt =====
-- The package `action/profile`: from the agent's arguments to a job, and the run of the job.
pub mod Args
pub mod Validate
pub mod GetJob
pub mod Run
pub mod Rounds
pub mod Chosen
pub mod WellFormed
pub mod Published
pub mod Accepts
pub mod Intervals
pub mod Choices
