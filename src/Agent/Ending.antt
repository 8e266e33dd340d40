-- ===== src/Agent/Ending.antt =====
-- How a run of the agent without a signal ends.
use application_profiler.Base.{
  ◌≡◌, ◌≢◌, ◌⊎◌, ◌++◌, ◌∙◌, refl, suc, ℕ, ok, err, panic, Error, Option, some, none, Option-cases,
  List, [], ◌∷◌, ◌==◌, false, arith, inl, inr, Result-cases,
}
use application_profiler.External.{External, IsLawful}
use application_profiler.World.{
  World, Event, Act, event, sleep, run_command, signal, result, notice, error_event, emit, progress,
}
use application_profiler.Io.Results.{result_events}
use application_profiler.Io.Silent.{events, events-append, IsSilent}
use application_profiler.Api.Langs.{fake_lang}
use application_profiler.Action.GetJob.{ParseDuration, get_profiling_job}
use application_profiler.Action.Run.{Seconds}
use application_profiler.Profilers.CleanUp.{get-clean_up-IsSilent}
use application_profiler.Profilers.Factory.{Tools}
use application_profiler.Agent.Flags.{Context, to_args}
use application_profiler.Agent.RunApp.{act_on, new_action, run_app, clean_up_with, main}
use application_profiler.Agent.Reported.{IsPublished, act_on_publishes}

-- The results among the events.
abbrev result_count : List Event → ℕ
result_count [] = 0
result_count (result d ∷ es) = suc (result_count es)
result_count (progress s ∷ es) = result_count es
result_count (notice s ∷ es) = result_count es
result_count (error_event e ∷ es) = result_count es

result_events-eq-count : (acts : List Act) → result_events acts ≡ result_count (events acts)
result_events-eq-count [] = refl
result_events-eq-count (event (result d) ∷ acts) = omega (arith, result_events-eq-count acts)
result_events-eq-count (event (progress s) ∷ acts) = omega (arith, result_events-eq-count acts)
result_events-eq-count (event (notice s) ∷ acts) = omega (arith, result_events-eq-count acts)
result_events-eq-count (event (error_event e) ∷ acts) = omega (arith, result_events-eq-count acts)
result_events-eq-count (sleep d ∷ acts) = omega (arith, result_events-eq-count acts)
result_events-eq-count (run_command c ∷ acts) = omega (arith, result_events-eq-count acts)
result_events-eq-count (signal p n ∷ acts) = omega (arith, result_events-eq-count acts)

module _ (x : External) (parse_duration : ParseDuration) (secs : Seconds) (tools : Tools) where
  -- Cleaning up after a run sends no event.
  clean_up_silent :
      (c : Context) (w w' : World)
      → events
          (clean_up_with x parse_duration secs tools
            (act_on x parse_duration secs tools c w).0.profiler
            w').acts
        ≡ events w'.acts
  unfolding act_on new_action clean_up_with IsSilent
  clean_up_silent c w w' = elim (Result-cases (get_profiling_job x parse_duration (to_args c))) [
    | inl (job, e) ↦ ground (arith, get-clean_up-IsSilent tools job.tool w')
    | inr (inl (_, e)) ↦ ground arith
    | inr (inr e) ↦ ground arith
  ]

  act_on_goes_on :
      (c : Context) (w : World) → (act_on x parse_duration secs tools c w).0.exit_code ≡ none
  unfolding act_on new_action
  act_on_goes_on c w = elim (Result-cases (get_profiling_job x parse_duration (to_args c))) [
    | inl (job, e) ↦ ground arith
    | inr (inl (_, e)) ↦ ground arith
    | inr (inr e) ↦ ground arith
  ]

  module _ (exits : Error → Option ℕ) (c : Context) (w : World) where
    main_ok :
        (u : Unit {0})
        → (act_on x parse_duration secs tools c w).0.outcome ≡ ok u
        → main x parse_duration secs tools exits (inr c) w
          ≡ clean_up_with x parse_duration secs tools
              (act_on x parse_duration secs tools c w).0.profiler
              (act_on x parse_duration secs tools c w).1
    unfolding main run_app
    main_ok u e = ground (arith, act_on_goes_on c w)

    main_err :
        (e : Error)
        → (act_on x parse_duration secs tools c w).0.outcome ≡ err e
        → exits e ≡ none
        → main x parse_duration secs tools exits (inr c) w
          ≡ clean_up_with x parse_duration secs tools
              (act_on x parse_duration secs tools c w).0.profiler
              (emit (error_event e) (act_on x parse_duration secs tools c w).1)
    unfolding main run_app
    main_err e q stays = ground arith

    main-exits :
        (e : Error) (n : ℕ)
        → (act_on x parse_duration secs tools c w).0.outcome ≡ err e
        → exits e ≡ some n
        → main x parse_duration secs tools exits (inr c) w
          ≡ (act_on x parse_duration secs tools c w).1
    unfolding main run_app
    main-exits e n q gone = ground arith

    -- The run failed, and `cli` ends the process for its error, with what the run did.
    abbrev pub IsExit : World → Type 0
    IsExit w' =
        (e : Error) × (n : ℕ) × ((act_on x parse_duration secs tools c w).0.outcome ≡ err e)
        × (exits e ≡ some n)
        × (w' ≡ (act_on x parse_duration secs tools c w).1)

    -- For a language other than the fake one, unless the run panics: at least as many results were
    -- published as the interval goes into the duration; or the run failed and the agent ends with an
    -- event that tells of its error; or the run failed with an error for which `cli` ends the process.
    pub main_reports :
        IsLawful x
        → (c.string "lang" == fake_lang) ≡ false
        → (act_on x parse_duration secs tools c w).0.outcome ≢ panic
        → IsPublished x parse_duration secs tools c w
            (main x parse_duration secs tools exits (inr c) w)
          ⊎ (((e : Error) × ((act_on x parse_duration secs tools c w).0.outcome ≡ err e)
                × (exits e ≡ none)
                × (events (main x parse_duration secs tools exits (inr c) w).acts
                    ≡ events (act_on x parse_duration secs tools c w).1.acts
                      ++ (error_event e ∷ [])))
              ⊎ IsExit (main x parse_duration secs tools exits (inr c) w))
    main_reports lawful real returns =
        let v = act_on x parse_duration secs tools c w in
        elim (Result-cases v.0.outcome) [
          | inl (u, e) ↦
              let (job, made, many) =
                act_on_publishes x parse_duration secs tools c w lawful real e in
              inl (
                job,
                made,
                ground (
                  arith,
                  main_ok u e,
                  result_events-eq-count v.1.acts,
                  result_events-eq-count
                      (clean_up_with x parse_duration secs tools v.0.profiler v.1).acts,
                  clean_up_silent c w v.1,
                ),
              )
          | inr (inl (e, q)) ↦ elim (Option-cases (exits e)) [
            | inl stays ↦ inr (
                inl (
                  e,
                  q,
                  stays,
                  rw (main_err e q stays) (
                      clean_up_silent c w (emit (error_event e) v.1)
                      ∙ events-append v.1.acts (event (error_event e) ∷ [])),
                ))
            | inr (n, gone) ↦ inr (inr (e, n, q, gone, main-exits e n q gone))
          ]
          | inr (inr q) ↦ absurd (returns q)
        ]
