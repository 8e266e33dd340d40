-- ===== src/Container.antt =====
-- internal/agent/util/container.go: the container of the job and its processes.
pub mod Normalize
pub mod Runtime
pub mod Spec
pub mod Crio
pub mod Containerd
pub mod Runtimes
pub mod Children
pub mod Candidates
pub mod Leaves
pub mod Selection
