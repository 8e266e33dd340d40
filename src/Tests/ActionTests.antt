-- ===== src/Tests/ActionTests.antt =====
-- Jobs made from concrete arguments.
use application_profiler.Base.{
  ◌≡◌, ◌↔◌, refl, ok, Result, some, none, [], inl, inr, errorf, ◌*◌, ◌≤◌, arith,
}
use application_profiler.Base.Int.{pos, negsuc}
use application_profiler.Job.{ProfilingJob}
use application_profiler.Api.Langs.{is_supported_language}
use application_profiler.Api.Events.{is_supported_event}
use application_profiler.Api.Runtimes.{is_supported_container_runtime}
use application_profiler.Api.Outputs.{is_supported_output_type}
use application_profiler.Api.Tools.{is_supported_profiling_tool}
use application_profiler.Api.Tables.{
  tools_of, outputs_of, is_valid_profiling_tool, is_valid_output_type,
}
use application_profiler.Api.Choice.{default_tool, get_profiling_tool}
use application_profiler.Compressor.{is_supported_compressor}
use application_profiler.Container.Normalize.{normalize_container_id}
use application_profiler.Action.Args.{Args}
use application_profiler.Action.Validate.{select_tool, select_output_type}
use application_profiler.Action.GetJob.{get_profiling_job, base_job, finish_job, fill_job}
use application_profiler.Action.WellFormed.{IsValid, Passes}
use application_profiler.Action.Accepts.{get_profiling_job-IsValid, get_profiling_job_accepts_iff}
use application_profiler.Base.Digits.{itoa}
use application_profiler.Action.Intervals.{get_profiling_job_reads_durations}
use application_profiler.Tests.Fixtures.{packages, packages-IsLawful, durations, quote, scaled}

abbrev arguments : Args
arguments = record {
  job_id = "job-1";
  target_container_runtime = "containerd";
  target_container_runtime_path = "";
  target_pod_uid = "uid";
  target_container_id = "containerd://abc";
  duration = "30s";
  interval = "10s";
  lang = "java";
  event_type = "";
  compressor_type = "";
  profiling_tool = "jcmd";
  output_type = "heapdump";
  filename = "";
  heap_dump_split_in_chunk_size = none;
  pid = some "7";
  pgrep = none;
  node_heap_snapshot_signal = some (pos 12);
}

-- The whole function, opened for runs.
make : Args → Result ProfilingJob
unfolding get_profiling_job base_job finish_job fill_job select_tool select_output_type
    normalize_container_id is_supported_language is_supported_event is_supported_container_runtime
    is_supported_output_type is_supported_profiling_tool is_supported_compressor
    is_valid_profiling_tool is_valid_output_type tools_of outputs_of default_tool get_profiling_tool
    durations
make = get_profiling_job packages durations

abbrev pub job : ProfilingJob
job = record {
  duration = pos 30_000_000_000;
  interval = pos 10_000_000_000;
  uid = "job-1";
  container_runtime = "containerd";
  container_runtime_path = "/run/containerd";
  container_id = "abc";
  pod_uid = "uid";
  language = "java";
  event = "itimer";
  compressor = "gzip";
  tool = "jcmd";
  output_type = "heapdump";
  file_name = "";
  heap_dump_split_in_chunk_size = "50M";
  pid = "7";
  pgrep = "";
  node_heap_snapshot_signal = pos 12;
  additional_arguments = [];
  iteration = 0;
}

made : make arguments ≡ ok job
unfolding make
made = refl

get_profiling_job-IsValid_example : IsValid packages job
unfolding make
get_profiling_job-IsValid_example =
    get_profiling_job-IsValid packages durations arguments job packages-IsLawful refl

get_profiling_job_accepts_iff_example :
    ((j : ProfilingJob) × (get_profiling_job packages durations arguments ≡ ok j))
    ↔ Passes packages durations arguments
get_profiling_job_accepts_iff_example =
    get_profiling_job_accepts_iff packages durations arguments packages-IsLawful

-- `rbspy` is no tool for Java.
abbrev wrong_tool : Args
wrong_tool = record arguments { profiling_tool = "rbspy" }

get_profiling_job_reads_durations_example :
    (job.duration ≡ pos (30 * 1_000_000_000))
    × (job.interval ≡ pos (10 * 1_000_000_000))
    × (10 * 1_000_000_000 ≤ 30 * 1_000_000_000)
unfolding make itoa
get_profiling_job_reads_durations_example =
    get_profiling_job_reads_durations packages packages-IsLawful arguments quote scaled job 30
      1_000_000_000 10 1_000_000_000 "s" "s" refl refl refl refl refl (omega arith) (omega arith)

-- Several units, a sign and a fraction; a unit is missing; and the numbers that do not fit.
parse_long : durations "1h30m" ≡ inr (pos 5_400_000_000_000)
unfolding durations
parse_long = refl

parse_fraction : durations "-1.5s" ≡ inr (negsuc 1_499_999_999)
unfolding durations
parse_fraction = refl

parse_missing_unit : durations "5" ≡ inl (errorf "time: missing unit in duration \"5\"")
unfolding durations
parse_missing_unit = refl

parse_greatest : durations "9223372036854775807ns" ≡ inr (pos 9_223_372_036_854_775_807)
unfolding durations
parse_greatest = refl

parse_too_great :
    durations "9223372036854775808ns"
    ≡ inl (errorf "time: invalid duration \"9223372036854775808ns\"")
unfolding durations
parse_too_great = refl

parse_least : durations "-9223372036854775808ns" ≡ inr (negsuc 9_223_372_036_854_775_807)
unfolding durations
parse_least = refl
