-- ===== src/Action/Choices.antt =====
-- Which tool and output type an accepted job of profile.go has, and the runtime that has no default.
use application_profiler.Base.{
  ◌≡◌, refl, sym, ◌∙◌, ◌≢◌, true, false, ok, String, arith, ok-injective, all, all-elem, elem, List,
  ◌∷◌, not,
}
use application_profiler.Base.Text.{all_space}
use application_profiler.External.{External, IsLawful}
use application_profiler.Job.{ProfilingJob}
use application_profiler.Api.Choice.{default_tool}
use application_profiler.Api.Runtimes.{
  ContainerRuntime, is_supported_container_runtime, container_runtimes, fake_container,
  fake_with_root_error, fake_with_pid_error, fake_with_cwd_error,
}
use application_profiler.Api.Tools.{is_supported_profiling_tool}
use application_profiler.Api.Outputs.{is_supported_output_type}
use application_profiler.Api.Tables.{is_valid_profiling_tool, is_valid_output_type}
use application_profiler.Action.Args.{Args}
use application_profiler.Action.Validate.{select_tool, select_output_type}
use application_profiler.Action.GetJob.{ParseDuration, base_job, get_profiling_job}
use application_profiler.Action.WellFormed.{
  fill_job-Filled, get_profiling_job_passed, get_profiling_job-eq-finish_job, finish_job_total,
}

module _ (x : External) (lawful : IsLawful x) (parse_duration : ParseDuration) (args : Args) where
  -- The tool and the type of an accepted job are those that the validators select, and its language
  -- is the one that was asked for.
  pub selected :
      (j : ProfilingJob)
      → get_profiling_job x parse_duration args ≡ ok j
      → (select_tool x args.profiling_tool args.output_type args.lang ≡ ok j.tool)
        × (select_output_type x args.output_type j.tool ≡ ok j.output_type)
        × (j.language ≡ args.lang)
  unfolding base_job
  selected j h =
      let (d, i, d_eq, i_eq, checked) = get_profiling_job_passed x parse_duration args (rw h tt) in
      let (t, o, tool_eq, output_eq, made, _, _) =
        finish_job_total x lawful args (base_job x args d i) checked.language_supported in
      let run = get_profiling_job-eq-finish_job x parse_duration args d i d_eq i_eq checked in
      let filled =
        fill_job-Filled x lawful args
          (record (base_job x args d i) { tool = t; output_type = o }) in
      let same = ok-injective _ _ (sym h ∙ run ∙ made) in
      rw same (rw (filled.tool_kept, filled.output_kept) (tool_eq, output_eq, filled.language_kept))

  -- A tool and a type that are supported and belong to the language and to the tool are kept.
  pub get_profiling_job_keeps_request :
      (j : ProfilingJob)
      → get_profiling_job x parse_duration args ≡ ok j
      → x.is_blank args.profiling_tool ≡ false
      → is_supported_profiling_tool x args.profiling_tool ≡ true
      → is_valid_profiling_tool args.profiling_tool args.lang ≡ true
      → x.is_blank args.output_type ≡ false
      → is_supported_output_type x args.output_type ≡ true
      → is_valid_output_type args.output_type args.profiling_tool ≡ true
      → (j.tool ≡ args.profiling_tool) × (j.output_type ≡ args.output_type)
  unfolding select_tool select_output_type
  get_profiling_job_keeps_request j h tool_given tool_ok tool_fits output_given output_ok
        output_fits =
      let (tool_eq, output_eq, _) = selected j h in ground arith

  -- A tool that the language does not have is replaced by the language's first tool.
  pub get_profiling_job_replaces_tool :
      (j : ProfilingJob)
      → get_profiling_job x parse_duration args ≡ ok j
      → x.is_blank args.profiling_tool ≡ false
      → is_valid_profiling_tool args.profiling_tool args.lang ≡ false
      → default_tool args.lang ≡ ok j.tool
  unfolding select_tool
  get_profiling_job_replaces_tool j h tool_given other =
      let (tool_eq, _, _) = selected j h in ground arith

abbrev known_runtimes : List ContainerRuntime
known_runtimes =
    fake_container ∷ fake_with_root_error ∷ fake_with_pid_error ∷ fake_with_cwd_error
    ∷ container_runtimes

runtimes_not_blank : all (λ r. not (all_space r)) known_runtimes ≡ true
runtimes_not_blank = refl

is_supported_container_runtime-eq-elem :
    (x : External)
    → IsLawful x
    → (r : String) → is_supported_container_runtime x r ≡ elem r known_runtimes
unfolding is_supported_container_runtime
is_supported_container_runtime-eq-elem x lawful r =
    ground (arith, lawful.contains_lem container_runtimes r)

-- A blank runtime is refused, although the code sets a default for it first.
pub get_profiling_job_blank_runtime :
    (x : External) (parse_duration : ParseDuration) (args : Args)
    → IsLawful x
    → x.is_blank args.target_container_runtime ≡ true
    → (j : ProfilingJob) → get_profiling_job x parse_duration args ≢ ok j
get_profiling_job_blank_runtime x parse_duration args lawful blank j h =
    let (d, i, _, _, checked) = get_profiling_job_passed x parse_duration args (rw h tt) in
    let listed =
      sym (is_supported_container_runtime-eq-elem x lawful args.target_container_runtime)
      ∙ checked.runtime_supported in
    let not_blank =
      all-elem (λ r. not (all_space r)) known_runtimes args.target_container_runtime
        runtimes_not_blank listed in
    ground (arith, lawful.blank_lem args.target_container_runtime)
