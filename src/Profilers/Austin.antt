-- ===== src/Profilers/Austin.antt =====
-- internal/agent/profiler/python_austin.go
pub mod Message
pub mod Targets
pub mod Invoke
pub mod Published
pub mod Usable
