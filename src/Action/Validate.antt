-- ===== src/Action/Validate.antt =====
-- The helpers of `getProfilingJob` that set one field of the job each. Their log lines are left out.
use application_profiler.Base.{
  Result, ok, ◌>>=◌, first, Option, none, some, String, not, ◌||◌, ◌==◌, if◌then◌else◌,
}
use application_profiler.External.{External}
use application_profiler.Job.{ProfilingJob}
use application_profiler.Api.Langs.{ProgrammingLanguage}
use application_profiler.Api.Outputs.{
  OutputType, heap_dump, heap_snapshot, is_supported_output_type,
}
use application_profiler.Api.Tools.{ProfilingTool, is_supported_profiling_tool}
use application_profiler.Api.Tables.{outputs_of, is_valid_profiling_tool, is_valid_output_type}
use application_profiler.Api.Choice.{default_tool, get_profiling_tool}
use application_profiler.Action.Args.{Args, default_heap_dump_split_in_chunk_size}

module _ (x : External) where
  -- What `validateProfilingTool` assigns to `job.Tool`.
  unfoldable pub select_tool : String → String → ProgrammingLanguage → Result ProfilingTool
  select_tool profiling_tool output_type language =
      if x.is_blank profiling_tool then get_profiling_tool language output_type else do
        default ← default_tool language
        if not (is_supported_profiling_tool x profiling_tool)
            then ok default
            else if not (is_valid_profiling_tool profiling_tool language)
            then ok default
            else ok profiling_tool

  unfoldable pub validate_profiling_tool : String → String → ProfilingJob → Result ProfilingJob
  validate_profiling_tool profiling_tool output_type job = do
    tool ← select_tool profiling_tool output_type job.language
    ok (record job { tool = tool })

  -- What `validateOutputType` assigns to `job.OutputType`.
  unfoldable pub select_output_type : String → ProfilingTool → Result OutputType
  select_output_type output_type tool = do
    default ← first (outputs_of tool)
    if x.is_blank output_type
        then ok default
        else if not (is_supported_output_type x output_type)
        then ok default
        else if not (is_valid_output_type output_type tool)
        then ok default
        else ok output_type

  unfoldable pub validate_output_type : String → ProfilingJob → Result ProfilingJob
  validate_output_type output_type job = do
    selected ← select_output_type output_type job.tool
    ok (record job { output_type = selected })

  -- `args[k] != nil && stringUtils.IsNotBlank(args[k].(string))`, and then that text.
  abbrev pub given : Option String → String → String
  given none old = old
  given (some s) old = if x.is_not_blank s then s else old

  unfoldable pub set_heap_dump_split_chunk_size : Args → ProfilingJob → ProfilingJob
  set_heap_dump_split_chunk_size args j =
      if j.output_type == heap_dump || j.output_type == heap_snapshot
      then record j {
        heap_dump_split_in_chunk_size =
            given args.heap_dump_split_in_chunk_size default_heap_dump_split_in_chunk_size;
      }
      else j

  unfoldable pub set_pid : Args → ProfilingJob → ProfilingJob
  set_pid args j = record j { pid = given args.pid j.pid }

  unfoldable pub set_pgrep : Args → ProfilingJob → ProfilingJob
  set_pgrep args j = record j { pgrep = given args.pgrep j.pgrep }

unfoldable pub set_node_heap_snapshot_signal : Args → ProfilingJob → ProfilingJob
set_node_heap_snapshot_signal args j = elim args.node_heap_snapshot_signal [
  | none ↦ j
  | some signal ↦ record j { node_heap_snapshot_signal = signal }
]
