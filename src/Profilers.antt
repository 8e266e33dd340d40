-- ===== src/Profilers.antt =====
-- internal/agent/profiler: the profilers, one module for each tool, over what they call.
pub mod Env
pub mod Targets
pub mod Flames
pub mod Python
pub mod Ruby
pub mod Austin
pub mod Bpf
pub mod Perf
pub mod Async
pub mod Jcmd
pub mod Node
pub mod GoPprof
pub mod Fetched
pub mod Await
pub mod Ports
pub mod Published
pub mod Productive
pub mod Factory
pub mod SetUp
pub mod CleanUp
pub mod Rust
