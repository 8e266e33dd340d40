-- ===== src/Agent/RunApp.antt =====
-- `runApp` of cmd/agent/main.go with `NewAction` of internal/agent/action/profile/profile.go, and what
-- `main` does when no signal comes.
use application_profiler.Base.{ℕ, Result, ok, err, panic, Error, Option, none, some, ◌⊎◌, inl, inr}
use application_profiler.Base.Int.{ℤ, pos}
use application_profiler.External.{External}
use application_profiler.Job.{ProfilingJob}
use application_profiler.World.{World, emit, error_event}
use application_profiler.Action.Args.{Args}
use application_profiler.Action.GetJob.{ParseDuration, get_profiling_job}
use application_profiler.Action.Run.{Profiler, Seconds, run}
use application_profiler.Profilers.Factory
use application_profiler.Profilers.Factory.{Tools, get-IsProductive}
use application_profiler.Agent.Flags.{Context, to_args}

-- 5 minutes
abbrev pub default_grace_period : ℤ
default_grace_period = pos 300_000_000_000

-- What `runApp` leaves: the outcome, and the global variables `gracePeriod` and `p`. Where `exit_code`
-- is there, the package `cli` has ended the process with it instead of returning the outcome.
pub record App : Type 0 where
  pub exit_code : Option ℕ
  pub outcome : Result (Unit {0})
  pub grace_period : ℤ
  pub profiler : Option Profiler

module _ (x : External) (parse_duration : ParseDuration) (secs : Seconds) (tools : Tools) where
  -- A text that is no duration leaves the default.
  unfoldable pub grace_period : Context → ℤ
  grace_period c = elim (parse_duration (c.string "grace-period-ending")) [
    | inl e ↦ default_grace_period
    | inr period ↦ period
  ]

  -- `NewAction`
  unfoldable pub new_action : Args → Result (Profiler × ProfilingJob)
  unfolding get_profiling_job Factory.get
  new_action args = elim (get_profiling_job x parse_duration args) [
    | ok job ↦ ok (Factory.get tools job.tool, job)
    | err e ↦ err e
    | panic ↦ panic
  ]

  -- The `Action` of the application
  unfoldable pub act_on : Context → World → App × World
  unfolding grace_period new_action to_args run
  act_on c w = elim (new_action (to_args c)) [
    | ok (p, job) ↦
        let v = run secs p (record w { job = job }) in
        (
          record {
            exit_code = none;
            outcome = v.0;
            grace_period = grace_period c;
            profiler = some p;
          },
          v.1,
        )
    | err e ↦ (
      record { exit_code = none; outcome = err e; grace_period = grace_period c; profiler = none },
      w,
    )
    | panic ↦ (
      record { exit_code = none; outcome = panic; grace_period = grace_period c; profiler = none },
      w,
    )
  ]

  unfoldable pub clean_up_with : Option Profiler → World → World
  clean_up_with none w = w
  clean_up_with (some p) w = (p.clean_up w).1

  -- `exits` is the code with which `cli` ends the process for an error of the `Action`, if it does.
  module _ (exits : Error → Option ℕ) where
    -- `app.Run` after the `Action` returned: for some errors, such as an `*exec.ExitError`, `cli` ends
    -- the process with a code that it takes from the error.
    abbrev pub handle_exit : App × World → App × World
    handle_exit (a, w) = elim a.outcome [
      | ok _ ↦ (a, w)
      | err e ↦ (record a { exit_code = exits e }, w)
      | panic ↦ (a, w)
    ]

    -- `runApp`, with what the package `cli` makes of the command line: an error, or a context.
    unfoldable pub run_app : Error ⊎ Context → World → App × World
    unfolding act_on
    run_app (inl e) w = (
      record {
        exit_code = none;
        outcome = err e;
        grace_period = default_grace_period;
        profiler = none;
      },
      w,
    )
    run_app (inr c) w = handle_exit (act_on c w)

    -- `main` when no signal comes: an error is reported, and after the grace period the profiler cleans
    -- up. A panic ends the process, as `cli` may.
    unfoldable pub main : Error ⊎ Context → World → World
    unfolding run_app clean_up_with
    main parsed w =
        let v = run_app parsed w in
        elim v.0.exit_code [
          | some n ↦ v.1
          | none ↦ elim v.0.outcome [
            | ok _ ↦ clean_up_with v.0.profiler v.1
            | err e ↦ clean_up_with v.0.profiler (emit (error_event e) v.1)
            | panic ↦ v.1
          ]
        ]
