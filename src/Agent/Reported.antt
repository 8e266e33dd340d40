-- ===== src/Agent/Reported.antt =====
-- What a run of the agent that reports no error has published.
use application_profiler.Base.{
  ap, List, [], ◌∷◌, ◌&&◌, ◌||◌, Bool, all, all-elem, or_nil, lookup, Bool-cases, eq_iff, ◌+◌, ◌≤◌,
  ◌≡◌, refl, ok, ◌==◌, true, false, elem, arith, inl, inr, Result-cases,
}
use application_profiler.Base.Int.{pos_part}
use application_profiler.Io.Kept.{KeepsJob}
use application_profiler.Profilers.SetUp.{get-set_up-KeepsJob}
use application_profiler.External.{External, IsLawful}
use application_profiler.Job.{ProfilingJob}
use application_profiler.World.{World, emit, progress, started}
use application_profiler.Io.Results.{result_events}
use application_profiler.Api.Langs.{ProgrammingLanguage, fake_lang}
use application_profiler.Api.Tools.{ProfilingTool, profiling_tools}
use application_profiler.Api.Tables.{
  is_valid_profiling_tool, tools_of, tools_by_language, search_loop, search_loop-eq-elem,
}
use application_profiler.Action.GetJob.{ParseDuration, get_profiling_job}
use application_profiler.Action.Run.{Seconds, iterations_of}
use application_profiler.Action.Published.{run_publishes}
use application_profiler.Action.Accepts.{get_profiling_job-IsValid}
use application_profiler.Action.Choices.{selected}
use application_profiler.Profilers.Factory
use application_profiler.Profilers.Factory.{Tools, get-IsProductive}
use application_profiler.Agent.Flags.{Context, to_args}
use application_profiler.Agent.RunApp.{act_on, new_action}

-- Every tool in the table is supported, but for those of the fake language.
abbrev all_known : List (ProgrammingLanguage × List ProfilingTool) → Bool
all_known [] = true
all_known ((k, tools) ∷ table) =
    (k == fake_lang || all (λ t. elem t profiling_tools) tools) && all_known table

known_in :
    (table : List (ProgrammingLanguage × List ProfilingTool)) (t : ProfilingTool)
    (l : ProgrammingLanguage)
    → all_known table ≡ true
    → search_loop t (or_nil (lookup l table)) ≡ true
    → (l == fake_lang) ≡ false
    → elem t profiling_tools ≡ true
known_in [] t l h found real = cc
known_in ((k, tools) ∷ table) t l h found real =
    let rest = known_in table t l in
    let here = all-elem (λ t. elem t profiling_tools) tools t in
    elim (Bool-cases (l == k)) [
      | inl e ↦ ground (
        arith,
        eq_iff l k,
        eq_iff k l,
        eq_iff k fake_lang,
        eq_iff l fake_lang,
        here,
        search_loop-eq-elem t tools,
      )
      | inr e ↦ ground (arith, eq_iff k l, eq_iff l k, rest)
    ]

tables_known : all_known tools_by_language ≡ true
tables_known = refl

module _ (x : External) (parse_duration : ParseDuration) (secs : Seconds) (tools : Tools) where
  -- The arguments make a job, and the world has a result for each of its iterations: as often as the
  -- interval goes into the duration.
  abbrev pub IsPublished : Context → World → World → Type 0
  IsPublished c w w' =
      (job : ProfilingJob) × (get_profiling_job x parse_duration (to_args c) ≡ ok job)
      × (result_events w.acts + pos_part (secs.quotient job.duration job.interval)
          ≤ result_events w'.acts)

  -- Setting a profiler up leaves the number of iterations.
  iterations_kept :
      (job : ProfilingJob) (w : World)
      → iterations_of secs
          (Factory.get tools job.tool)
          ((Factory.get tools job.tool).set_up (emit (progress started) (record w { job = job }))).1
        ≡ pos_part (secs.quotient job.duration job.interval)
  unfolding iterations_of KeepsJob
  iterations_kept job w =
      let kept =
        get-set_up-KeepsJob tools job.tool (emit (progress started) (record w { job = job })) in
      ap (λ (j : ProfilingJob). pos_part (secs.quotient j.duration j.interval)) kept

  -- If the run of the agent for a language other than the fake one ends without an error, its arguments
  -- made a job, and at least as many results were published as its interval goes into its duration.
  pub act_on_publishes :
      (c : Context) (w : World)
      → IsLawful x
      → (c.string "lang" == fake_lang) ≡ false
      → (act_on x parse_duration secs tools c w).0.outcome ≡ ok tt
      → IsPublished c w (act_on x parse_duration secs tools c w).1
  unfolding act_on new_action to_args is_valid_profiling_tool tools_of
  act_on_publishes c w lawful real h =
      elim (Result-cases (get_profiling_job x parse_duration (to_args c))) [
        | inl (job, e) ↦
            let valid = get_profiling_job-IsValid x parse_duration (to_args c) job lawful e in
            let (_, _, language) = selected x lawful parse_duration (to_args c) job e in
            let known =
              known_in tools_by_language job.tool job.language tables_known valid.tool_valid
                (rw language real) in
            (
              job,
              e,
              ground (
                arith,
                iterations_kept job w,
                run_publishes secs (Factory.get tools job.tool)
                    (get-IsProductive tools job.tool known) (record w { job = job }),
              ),
            )
        | inr (inl (_, e)) ↦ absurd (ground arith)
        | inr (inr e) ↦ absurd (ground arith)
      ]
