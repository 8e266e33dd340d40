-- ===== src/Action/Intervals.antt =====
-- The duration and the interval of a job, as they are spelled in the arguments.
use application_profiler.Base.{
  ◌≡◌, refl, sym, ap, ◌∙◌, ℕ, ◌*◌, ◌<◌, ◌≤◌, ok, some, true, not, String, ◌<>◌, lookup, arith,
  ok-injective,
}
use application_profiler.Base.Int.{ℤ, pos}
use application_profiler.Base.Digits.{itoa}
use application_profiler.External.{External, IsLawful}
use application_profiler.Job.{ProfilingJob}
use application_profiler.Durations.{limit, unit_map, parse_duration}
use application_profiler.Durations.Spelled.{parse_duration-itoa, all_space-itoa}
use application_profiler.Action.Args.{Args, default_duration}
use application_profiler.Action.GetJob.{ParseDuration, duration_or, get_profiling_job, base_job}
use application_profiler.Action.Accepts.{get_profiling_job-IsValid}
use application_profiler.Action.WellFormed.{
  fill_job-Filled, get_profiling_job_passed, get_profiling_job-eq-finish_job, finish_job_total,
}

module _ (x : External) (lawful : IsLawful x) (args : Args) where
  -- The durations of an accepted job are those that its arguments give.
  durations_of :
      (parse : ParseDuration) (j : ProfilingJob)
      → get_profiling_job x parse args ≡ ok j
      → (duration_or x parse default_duration args.duration ≡ ok j.duration)
        × (duration_or x parse j.duration args.interval ≡ ok j.interval)
  unfolding base_job
  durations_of parse j h =
      let (d, i, d_eq, i_eq, checked) = get_profiling_job_passed x parse args (rw h tt) in
      let (t, o, tool_eq, output_eq, made, _, _) =
        finish_job_total x lawful args (base_job x args d i) checked.language_supported in
      let run = get_profiling_job-eq-finish_job x parse args d i d_eq i_eq checked in
      let filled =
        fill_job-Filled x lawful args
          (record (base_job x args d i) { tool = t; output_type = o }) in
      let same = ok-injective _ _ (sym h ∙ run ∙ made) in
      rw same (rw (filled.duration_kept, filled.interval_kept) (d_eq, i_eq))

  module _ (quote : String → String) (scaled : ℕ → ℕ → ℕ → ℕ) where
    duration_or-itoa :
        (default : ℤ) (n k : ℕ) (u : String)
        → lookup u unit_map ≡ some k
        → n * k < limit
        → duration_or x (parse_duration quote scaled) default (itoa n <> u) ≡ ok (pos (n * k))
    unfolding duration_or
    duration_or-itoa default n k u found fits =
        let some_text : x.is_not_blank (itoa n <> u) ≡ true =
          lawful.not_blank_lem _ ∙ ap not (lawful.blank_lem _ ∙ all_space-itoa n u) in
        rw (some_text, parse_duration-itoa quote scaled n k u found fits) refl

    -- Whole numbers of units as the duration and the interval, below 2 ^ 63 nanoseconds: a job that is
    -- accepted has these, in nanoseconds, and its interval is not greater than its duration.
    pub get_profiling_job_reads_durations :
        (j : ProfilingJob) (n k m l : ℕ) (u v : String)
        → get_profiling_job x (parse_duration quote scaled) args ≡ ok j
        → args.duration ≡ itoa n <> u
        → args.interval ≡ itoa m <> v
        → lookup u unit_map ≡ some k
        → lookup v unit_map ≡ some l
        → n * k < limit
        → m * l < limit
        → (j.duration ≡ pos (n * k)) × (j.interval ≡ pos (m * l)) × (m * l ≤ n * k)
    get_profiling_job_reads_durations j n k m l u v h d_eq i_eq u_eq v_eq n_fits m_fits =
        let parse = parse_duration quote scaled in
        let (d, i) = durations_of parse j h in
        let within = (get_profiling_job-IsValid x parse args j lawful h).interval_within in
        let first = ok-injective _ _ (
          sym d
          ∙ ap (duration_or x parse default_duration) d_eq
          ∙ duration_or-itoa default_duration n k u u_eq n_fits) in
        let second = ok-injective _ _ (
          sym i
          ∙ ap (duration_or x parse j.duration) i_eq
          ∙ duration_or-itoa j.duration m l v v_eq m_fits) in
        (first, second, ground arith)
