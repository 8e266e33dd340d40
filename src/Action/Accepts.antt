-- ===== src/Action/Accepts.antt =====
-- When `getProfilingJob` accepts its arguments, and what it makes of them.
use application_profiler.Base.{◌≡◌, ◌∙◌, ◌≢◌, ◌↔◌, ok, panic, NotErr, subst}
use application_profiler.External.{External, IsLawful}
use application_profiler.Job.{ProfilingJob}
use application_profiler.Action.Args.{Args}
use application_profiler.Action.GetJob.{ParseDuration, get_profiling_job}
use application_profiler.Action.WellFormed.{
  IsValid, get_profiling_job_passed, get_profiling_job-eq-finish_job, Passes, finish_job-IsValid,
}

module _ (x : External) (parse_duration : ParseDuration) (args : Args) where
  -- The arguments pass, and a valid job is the result, unless there is an error.
  outcome :
      IsLawful x
      → NotErr (get_profiling_job x parse_duration args)
      → (j : ProfilingJob) × (get_profiling_job x parse_duration args ≡ ok j) × IsValid x j
  outcome lawful h =
      let (d, i, d_eq, i_eq, checked) = get_profiling_job_passed x parse_duration args h in
      let (k, made, valid) = finish_job-IsValid x lawful args d i checked in
      (k, get_profiling_job-eq-finish_job x parse_duration args d i d_eq i_eq checked ∙ made, valid)

  -- Every accepted job is valid.
  pub get_profiling_job-IsValid :
      (j : ProfilingJob) → IsLawful x → get_profiling_job x parse_duration args ≡ ok j → IsValid x j
  get_profiling_job-IsValid j lawful h =
      let (k, made, valid) = outcome lawful (rw h tt) in subst (IsValid x) (cc) valid

  -- A job is made exactly where the durations parse and the checks pass.
  pub get_profiling_job_accepts_iff :
      IsLawful x
      → ((j : ProfilingJob) × (get_profiling_job x parse_duration args ≡ ok j))
        ↔ Passes x parse_duration args
  get_profiling_job_accepts_iff lawful = (
    (λ (j, h). get_profiling_job_passed x parse_duration args (rw h tt)),
    (λ (d, i, d_eq, i_eq, checked).
        let (k, made, _) = finish_job-IsValid x lawful args d i checked in
        (k, get_profiling_job-eq-finish_job x parse_duration args d i d_eq i_eq checked ∙ made)),
  )

  -- Whatever the arguments, the function returns: no index of a table is out of range.
  pub get_profiling_job-ne-panic : IsLawful x → get_profiling_job x parse_duration args ≢ panic
  get_profiling_job-ne-panic lawful h = let (k, made, _) = outcome lawful (rw h tt) in cc
