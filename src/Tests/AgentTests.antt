-- ===== src/Tests/AgentTests.antt =====
-- Runs of the agent.
use application_profiler.Base.{
  ◌≡◌, ◌≤◌, refl, true, false, none, some, ok, List, [], ◌∷◌, String, ◌==◌, if◌then◌else◌, arith,
  lookup, Option,
}
use application_profiler.Base.Int.{pos}
use application_profiler.World.{World, absent}
use application_profiler.Os.{Os}
use application_profiler.FileSystem.{put}
use application_profiler.Action.Run.{Seconds}
use application_profiler.Action.Published.{IsProductive}
use application_profiler.Profilers.Factory.{Tools, get, get-IsProductive}
use application_profiler.Agent.Flags.{Context}
use application_profiler.Agent.RunApp.{act_on}
use application_profiler.Agent.Reported.{IsPublished}
use application_profiler.Agent.Lifecycle.{
  Agent, leaving, stopped, fresh, tick, terminate, begin, finish, expire, clean_at_end, return,
  catch, clean_on_signal, Reach, here, next,
}
use application_profiler.Agent.Lifecycle.Ends.{Elapsed, Reach-Elapsed, Reach-clean_ups}
use application_profiler.Agent.Lifecycle.Signalled.{Exits, Reach-Exits}
use application_profiler.Api.Langs.{is_supported_language}
use application_profiler.Api.Events.{is_supported_event}
use application_profiler.Api.Runtimes.{is_supported_container_runtime}
use application_profiler.Api.Outputs.{is_supported_output_type}
use application_profiler.Api.Tools.{is_supported_profiling_tool}
use application_profiler.Api.Tables.{
  tools_of, outputs_of, is_valid_profiling_tool, is_valid_output_type,
}
use application_profiler.Api.Choice.{default_tool, get_profiling_tool}
use application_profiler.Compressor.{is_supported_compressor}
use application_profiler.Container.Normalize.{normalize_container_id}
use application_profiler.Action.Validate.{select_tool, select_output_type}
use application_profiler.Action.GetJob.{base_job, finish_job, fill_job}
use application_profiler.Io.{
  ◌>>=◌, get_job, set_target_pids, get_target_pids, fail_if, pure, get_files, lift, wrapped,
  emit_event,
}
use application_profiler.FilePath.{join_paths}
use application_profiler.ResultFile.{get_file_extension}
use application_profiler.Pids.{verdict, collect_failed}
use application_profiler.Profilers.Targets.{set_up_targets, invoke_each}
use application_profiler.Profilers.Ruby.{invoke_pid}
use application_profiler.Pids.Serial.{profile_serially}
use application_profiler.Base.{inr, ◌⊎◌, ◌++◌, Error, ℕ, err, errorf, wrap, exit_error, pid_errors}
use application_profiler.World.{error_event}
use application_profiler.Io.Silent.{events}
use application_profiler.Agent.RunApp.{main}
use application_profiler.Agent.Ending.{IsExit, main_reports}
use application_profiler.Tests.ActionTests.{job}
use application_profiler.Tests.Fixtures.{packages, packages-IsLawful, durations, env, machine}

abbrev result_file : String
result_file = "/tmp/agent-summary-7-1.txt"

-- A system on which every command writes the result file.
abbrev writing : Os
writing = record machine {
  exec = λ c input fs. record {
    stdout = "";
    stderr = "";
    error = none;
    files = put result_file "10% main" fs;
  };
}

abbrev tools : Tools
tools = record {
  env = record env { os = writing };
  quoted = λ s. s;
  proc = record { read_link = λ p. ok ""; read_text = λ p. ok ""; readable = λ p. true };
  script = "";
  duration_text = λ d. "30s";
}

abbrev once : Seconds
once = record { quotient = λ d i. pos 1; shorter = λ d i. false }

abbrev given : List (String × String)
given =
    ("target-container-runtime", "crio")
    ∷ ("target-container-id", "abc")
    ∷ ("lang", "ruby")
    ∷ ("compressor-type", "none")
    ∷ ("output-type", "summary")
    ∷ ("pid", "7")
    ∷ []

abbrev text_of : Option String → String
text_of none = ""
text_of (some s) = s

abbrev context : Context
context = record {
  string = λ name. text_of (lookup name given);
  bool = λ name. false;
  int = λ name. pos 0;
}

abbrev start : World
start = record {
  job = job;
  target_pids = [];
  directory = "";
  recordings = absent;
  files = [];
  acts = [];
}

-- `cli` ends the process for an error with an exit code.
abbrev exits : Error → Option ℕ
exits (errorf s) = none
exits (wrap s e) = none
exits (exit_error n) = some n
exits (pid_errors es) = none

main_reports_example :
    IsPublished packages durations once tools context start
      (main packages durations once tools exits (inr context) start)
    ⊎ (((e : Error) × ((act_on packages durations once tools context start).0.outcome ≡ err e)
          × (exits e ≡ none)
          × (events (main packages durations once tools exits (inr context) start).acts
              ≡ events (act_on packages durations once tools context start).1.acts
                ++ (error_event e ∷ [])))
        ⊎ IsExit packages durations once tools exits context start
            (main packages durations once tools exits (inr context) start))
unfolding act_on base_job finish_job fill_job select_tool select_output_type normalize_container_id
    is_supported_language is_supported_event is_supported_container_runtime is_supported_output_type
    is_supported_profiling_tool is_supported_compressor is_valid_profiling_tool is_valid_output_type
    tools_of outputs_of default_tool get_profiling_tool set_up_targets ◌>>=◌ get_job set_target_pids
    get_target_pids invoke_each profile_serially invoke_pid fail_if pure get_files lift join_paths
    get_file_extension wrapped emit_event verdict collect_failed
main_reports_example =
    main_reports packages durations once tools exits context start packages-IsLawful refl (λ h. cc)

get-IsProductive_example : IsProductive (get tools "jcmd")
get-IsProductive_example = get-IsProductive tools "jcmd" refl

-- A context that differs only in a flag that was not declared.
abbrev other_context : Context
other_context = record context {
  string = λ name. if name == "colour" then "red" else text_of (lookup name given);
}

-- A call of `CleanUp` takes one unit of time.
abbrev one_unit : ℕ → Option ℕ
one_unit now = some 1

one_unit_returns : (now : ℕ) → (k : ℕ) × (one_unit now ≡ some k) × (k ≤ 1)
one_unit_returns now = (1, refl, omega arith)

-- The agent runs, lingers for two units of time, cleans up and ends.
abbrev ended_agent : Agent
ended_agent = record fresh {
  phase = leaving (some 3);
  has_profiler = true;
  exited = true;
  clean_ups = 1;
  ended = some 0;
  now = 3;
}

alone : Reach 2 one_unit fresh ended_agent
alone =
    next
      (next
        (next
          (next
            (next (next (next (next here (begin refl refl)) (finish refl refl)) (tick refl))
              (tick refl))
            (expire 2 refl refl (omega arith)))
          (clean_at_end refl refl))
        (tick refl))
      (return 3 refl refl (omega arith))

Reach-Elapsed_example :
    Elapsed 2 ended_agent.ended ended_agent.now
    × (ended_agent.clean_ups ≡ (if ended_agent.has_profiler then 1 else 0))
Reach-Elapsed_example = Reach-Elapsed 2 one_unit alone refl refl refl

-- A signal comes while the profiler works, and `CleanUp` begins for it and for the timer.
abbrev signalled_agent : Agent
signalled_agent = record fresh {
  phase = leaving (some 1);
  handler = stopped (some 1);
  has_profiler = true;
  clean_ups = 2;
  delivered = true;
  ended = some 0;
}

both_clean : Reach 0 one_unit fresh signalled_agent
both_clean =
    next
      (next
        (next
          (next (next (next (next here (begin refl refl)) (terminate refl)) (catch refl refl refl))
            (finish refl refl))
          (expire 0 refl refl (omega arith)))
        (clean_at_end refl refl))
      (clean_on_signal refl refl)

Reach-clean_ups_example : signalled_agent.clean_ups ≤ (if signalled_agent.delivered then 2 else 1)
Reach-clean_ups_example = Reach-clean_ups 0 one_unit both_clean

Reach-Exits_example : Exits 0 one_unit 1 signalled_agent
Reach-Exits_example = Reach-Exits 0 one_unit 1 one_unit_returns signalled_agent both_clean refl
