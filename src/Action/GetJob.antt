-- ===== src/Action/GetJob.antt =====
-- `getProfilingJob` of internal/agent/action/profile/profile.go. `time.ParseDuration` is a
-- parameter, which gives an error or a number of nanoseconds: the function of Durations.
use application_profiler.Base.{
  Result, ok, err, Error, errorf, guard, ◌>>=◌, ◌>>◌, String, ◌<>◌, [], not, if◌then◌else◌, ◌⊎◌,
  inl, inr, lookup, none, some,
}
use application_profiler.Base.Int.{ℤ, pos, ltb_ℤ}
use application_profiler.Base.Digits.{itoa_ℤ}
use application_profiler.Base.Text.{show_list}
use application_profiler.External.{External}
use application_profiler.Job.{ProfilingJob}
use application_profiler.Compressor.{compressors, is_supported_compressor}
use application_profiler.Api.Langs.{available_languages, is_supported_language}
use application_profiler.Api.Events.{supported_events, is_supported_event}
use application_profiler.Api.Runtimes.{
  container_runtimes, container_runtime_root_path, is_supported_container_runtime,
}
use application_profiler.Container.Normalize.{normalize_container_id}
use application_profiler.Action.Args.{
  Args, default_duration, default_compressor, default_event_type,
}
use application_profiler.Action.Validate.{
  validate_profiling_tool, validate_output_type, set_heap_dump_split_chunk_size, set_pid, set_pgrep,
  set_node_heap_snapshot_signal,
}

-- `time.ParseDuration`
abbrev pub ParseDuration : Type 0
ParseDuration = String → Error ⊎ ℤ

-- `GetContainerRuntimeRootPath[runtime]`
abbrev pub root_path_of : String → String
root_path_of runtime = elim (lookup runtime container_runtime_root_path) [ none ↦ "" | some p ↦ p ]

module _ (x : External) where
  -- A text argument, or the default if it is blank.
  abbrev pub text_or : String → String → String
  text_or default s = if x.is_blank s then default else s

  -- The job before the tool and the output type are validated.
  unfoldable pub base_job : Args → ℤ → ℤ → ProfilingJob
  base_job args duration interval = record {
    duration = duration;
    interval = interval;
    uid = args.job_id;
    container_runtime = args.target_container_runtime;
    container_runtime_path =
        text_or (root_path_of args.target_container_runtime) args.target_container_runtime_path;
    container_id = normalize_container_id args.target_container_id;
    pod_uid = args.target_pod_uid;
    language = args.lang;
    event = text_or default_event_type args.event_type;
    compressor = text_or default_compressor args.compressor_type;
    tool = "";
    output_type = "";
    file_name = args.filename;
    heap_dump_split_in_chunk_size = "";
    pid = "";
    pgrep = "";
    node_heap_snapshot_signal = pos 0;
    additional_arguments = [];
    iteration = 0;
  }

  -- The steps after the output type is known.
  unfoldable pub fill_job : Args → ProfilingJob → ProfilingJob
  unfolding set_heap_dump_split_chunk_size set_pid set_pgrep set_node_heap_snapshot_signal
  fill_job args j =
      let j₁ = set_heap_dump_split_chunk_size x args j in
      let j₂ = set_pid x args j₁ in
      let j₃ = set_pgrep x args j₂ in set_node_heap_snapshot_signal args j₃

  -- The steps from `validateProfilingTool` on.
  unfoldable pub finish_job : Args → ProfilingJob → Result ProfilingJob
  unfolding validate_profiling_tool validate_output_type
  finish_job args j = do
    j₁ ← validate_profiling_tool x args.profiling_tool args.output_type j
    j₂ ← validate_output_type x args.output_type j₁
    ok (fill_job args j₂)

module _ (x : External) (parse_duration : ParseDuration) where
  -- A duration argument, or the default if it is blank.
  unfoldable pub duration_or : ℤ → String → Result ℤ
  duration_or default s =
      if x.is_not_blank s
      then elim (parse_duration s) [ inl e ↦ err e | inr d ↦ ok d ]
      else ok default

  -- The default that is assigned to the runtime where it is blank is overwritten by the blank text
  -- itself; the blank text is refused before that.
  unfoldable pub get_profiling_job : Args → Result ProfilingJob
  unfolding duration_or
  get_profiling_job args = do
    duration ← duration_or default_duration args.duration
    interval ← duration_or duration args.interval
    guard (not (ltb_ℤ duration interval)) (
        errorf (
          "interval cannot be greater than duration (duration "
          <> itoa_ℤ duration
          <> ", interval: "
          <> itoa_ℤ interval
          <> ")"))
    guard (is_supported_container_runtime x args.target_container_runtime)
        (errorf ("unsupported container runtime, choose one of " <> show_list container_runtimes))
    guard (is_supported_language x args.lang)
        (errorf ("unsupported language, choose one of " <> show_list available_languages))
    guard (is_supported_event x (text_or x default_event_type args.event_type))
        (errorf ("unsupported event, choose one of " <> show_list supported_events))
    guard (is_supported_compressor x (text_or x default_compressor args.compressor_type))
        (errorf ("unsupported compressor, choose one of " <> show_list compressors))
    finish_job x args (base_job x args duration interval)
