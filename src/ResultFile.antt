-- ===== src/ResultFile.antt =====
-- internal/agent/profiler/common/common.go: the names of the files that hold the results.
pub mod Unique
use application_profiler.Base.{ℕ, ◌||◌, ◌∷◌, [], String, ◌<>◌, ◌==◌, if◌then◌else◌}
use application_profiler.Base.Digits.{itoa}
use application_profiler.FilePath.{join_paths}
use application_profiler.Api.Outputs.{
  OutputType, speed_scope, jfr, thread_dump, heap_dump, heap_histogram, flat, traces, collapsed,
  callgrind, raw, summary, summary_by_line, heap_snapshot,
}
use application_profiler.Api.Tools.{
  ProfilingTool, async_profiler, jcmd, pyspy, bpf, perf, rbspy, node_dummy, austin, pprof_tool,
}

-- `config.ProfilingPrefix` of internal/agent/config/constants.go
abbrev pub profiling_prefix : String
profiling_prefix = "agent-"

unfoldable pub get_file_extension : ProfilingTool → OutputType → String
get_file_extension tool o =
    if tool == async_profiler
    then if o == jfr
      then ".jfr"
      else if o == thread_dump
          || o == heap_histogram
          || o == flat
          || o == traces
          || o == collapsed
          || o == speed_scope
          || o == raw
      then ".txt"
      else if o == heap_dump
      then ".hprof"
      else ".html"
    else if tool == jcmd
    then if o == jfr || o == raw
      then ".jfr"
      else if o == thread_dump
          || o == heap_histogram
          || o == flat
          || o == traces
          || o == collapsed
          || o == speed_scope
      then ".txt"
      else if o == heap_dump
      then ".hprof"
      else ".html"
    else if tool == pyspy
    then if o == speed_scope
      then ".json"
      else if o == thread_dump || o == raw
      then ".txt"
      else ".svg"
    else if tool == rbspy
    then if o == speed_scope
      then ".json"
      else if o == callgrind
      then ".out"
      else if o == summary || o == summary_by_line
      then ".txt"
      else ".svg"
    else if tool == bpf || tool == perf || tool == austin
    then if o == raw then ".txt" else ".svg"
    else if tool == node_dummy
    then if o == heap_snapshot then ".heapsnapshot" else ".svg"
    else if tool == pprof_tool
    then ".pprof"
    else ".svg"

unfoldable pub get_result_file : String → ProfilingTool → OutputType → String → ℕ → String
get_result_file target_dir tool output_type pid iteration =
    join_paths (target_dir ∷ profiling_prefix ∷ [])
    <> (output_type
        <> ("-" <> (pid <> ("-" <> (itoa iteration <> get_file_extension tool output_type)))))
