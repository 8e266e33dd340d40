-- ===== src/Action/Args.antt =====
-- The arguments of the agent: the constants of internal/agent/action/profile/profile.go and the map
-- that `toArgs` of cmd/agent/main.go fills.
use application_profiler.Base.{Option, String}
use application_profiler.Base.Int.{ℤ, pos}
use application_profiler.Api.Events.{ProfilingEvent, itimer}
use application_profiler.Compressor.{CompressorType, gzip}

-- The entries that `getProfilingJob` reads without a test for nil are always present; the others
-- are optional.
pub record Args : Type 0 where
  pub job_id : String
  pub target_container_runtime : String
  pub target_container_runtime_path : String
  pub target_pod_uid : String
  pub target_container_id : String
  pub duration : String
  pub interval : String
  pub lang : String
  pub event_type : String
  pub compressor_type : String
  pub profiling_tool : String
  pub output_type : String
  pub filename : String
  pub heap_dump_split_in_chunk_size : Option String
  pub pid : Option String
  pub pgrep : Option String
  pub node_heap_snapshot_signal : Option ℤ

-- 60 seconds
abbrev pub default_duration : ℤ
default_duration = pos 60_000_000_000

abbrev pub default_compressor : CompressorType
default_compressor = gzip

abbrev pub default_event_type : ProfilingEvent
default_event_type = itimer

abbrev pub default_heap_dump_split_in_chunk_size : String
default_heap_dump_split_in_chunk_size = "50M"
