-- ===== src/Job.antt =====
-- internal/agent/job/profiling_job.go
use application_profiler.Base.{ℕ, List, [], ◌∷◌, none, some, String, ◌==◌, if◌then◌else◌, lookup}
use application_profiler.Base.Int.{ℤ}
use application_profiler.External.{External}
use application_profiler.Api.Langs.{ProgrammingLanguage}
use application_profiler.Api.Events.{ProfilingEvent}
use application_profiler.Api.Outputs.{OutputType}
use application_profiler.Api.Runtimes.{ContainerRuntime}
use application_profiler.Api.Tools.{ProfilingTool}
use application_profiler.Compressor.{CompressorType}

abbrev pub flamegraph_width_in_pixels : String
flamegraph_width_in_pixels = "flamegraph-width-in-pixels"

-- Durations are in nanoseconds, as in `time.Duration`. A nil map has no entry.
pub record ProfilingJob : Type 0 where
  pub duration : ℤ
  pub interval : ℤ
  pub uid : String
  pub container_runtime : ContainerRuntime
  pub container_runtime_path : String
  pub container_id : String
  pub pod_uid : String
  pub language : ProgrammingLanguage
  pub event : ProfilingEvent
  pub compressor : CompressorType
  pub tool : ProfilingTool
  pub output_type : OutputType
  pub file_name : String
  pub heap_dump_split_in_chunk_size : String
  pub pid : String
  pub pgrep : String
  pub node_heap_snapshot_signal : ℤ
  pub additional_arguments : List (String × String)
  pub iteration : ℕ

-- `delete(m, k)`
unfoldable pub delete_key : String → List (String × String) → List (String × String)
delete_key k [] = []
delete_key k ((j, v) ∷ m) = let rest = delete_key k m in if k == j then rest else (j, v) ∷ rest

-- `GetWidthAdditionalArgument`
unfoldable pub get_width : External → ProfilingJob → String
get_width x p = elim (lookup flamegraph_width_in_pixels p.additional_arguments) [
  | none ↦ ""
  | some width ↦ if x.is_numeric width then width else ""
]

-- `DeleteWidthAdditionalArgument`
unfoldable pub delete_width : ProfilingJob → ProfilingJob
unfolding delete_key
delete_width p = record p {
  additional_arguments = delete_key flamegraph_width_in_pixels p.additional_arguments;
}

-- `GetWidthAdditionalArgumentAndDelete`
unfoldable pub get_width_and_delete : External → ProfilingJob → String × ProfilingJob
unfolding get_width delete_width
get_width_and_delete x p = let width = get_width x p in (width, delete_width p)
