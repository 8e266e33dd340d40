-- ===== src/Profilers/Python.antt =====
-- internal/agent/profiler/python.go
use application_profiler.Base.{not, ◌||◌, wrap, [], ◌∷◌, String, ◌<>◌, ◌==◌, if◌then◌else◌, eqb}
use application_profiler.Base.Int.{ℤ, pos}
use application_profiler.Api.Outputs.{OutputType, flame_graph, speed_scope, raw, thread_dump}
use application_profiler.Job.{ProfilingJob}
use application_profiler.World.{Command}
use application_profiler.Os.{Completed}
use application_profiler.FileSystem.{write}
use application_profiler.Publisher.{publish}
use application_profiler.Io.{Io, ◌>>=◌, ◌>>◌, fail_if, wrapped, run, get_job, change_files}
use application_profiler.Flamegraph.Grapher.{FrameGrapher, get_grapher}
use application_profiler.Action.Run.{Profiler}
use application_profiler.Profilers.Env.{Env, interval_text, timed}
use application_profiler.Profilers.Targets.{set_up_targets, invoke_each, remove_results, file_of}
use application_profiler.Profilers.Flames.{flames_if}

abbrev py_spy_location : String
py_spy_location = "/app/py-spy"

abbrev pub py_spy_delay_between_jobs : ℤ
py_spy_delay_between_jobs = pos 2_000_000_000

-- A flame graph is made from raw samples.
abbrev pub recorded_type : OutputType → OutputType
recorded_type o = if o == flame_graph then raw else o

unfoldable pub python_command : ProfilingJob → String → String → Command
unfolding interval_text
python_command job pid file_name =
    let output = recorded_type job.output_type in
    if output == flame_graph || output == speed_scope || output == raw
    then record {
      name = py_spy_location;
      args =
          "record"
          ∷ "-p"
          ∷ pid
          ∷ "-o"
          ∷ file_name
          ∷ "-d"
          ∷ interval_text job
          ∷ "-s"
          ∷ "-t"
          ∷ "-f"
          ∷ output
          ∷ [];
    }
    else record { name = py_spy_location; args = "dump" ∷ "-p" ∷ pid ∷ [] }

module _ (env : Env) where
  unfoldable pub handle_flamegraph : ProfilingJob → FrameGrapher → String → String → Io (Unit {0})
  unfolding flames_if
  handle_flamegraph = flames_if env (λ n. not (eqb n 0))

  -- What the tool left: its output for a thread dump, and a flame graph where one is wanted.
  unfoldable pub finish_file : ProfilingJob → String → String → Completed → Io (Unit {0})
  unfolding handle_flamegraph get_grapher write
  finish_file job file_name result_file out =
      if job.output_type == thread_dump
      then change_files (write env.os result_file out.stdout)
      else wrapped "could not generate flamegraph" (
          get_grapher env.packages >>= λ grapher.
          handle_flamegraph job grapher file_name result_file)

  -- `pythonManager.invoke`
  unfoldable pub invoke_pid : String → Io (Unit {0})
  unfolding finish_file publish python_command run file_of
  invoke_pid pid = do
    job ← get_job
    out ← run env.os (python_command job pid (file_of env job (recorded_type job.output_type) pid))
    fail_if (wrap ("could not launch profiler: " <> out.stderr)) out.error
    finish_file job (file_of env job (recorded_type job.output_type) pid)
        (file_of env job job.output_type pid) out
    publish env.os env.encode job.compressor (file_of env job job.output_type pid) job.output_type

  abbrev set_up : Io (Unit {0})
  set_up = set_up_targets env

  abbrev pub invoke : Io (Unit {0})
  invoke = invoke_each env py_spy_delay_between_jobs invoke_pid

  abbrev clean_up : Io (Unit {0})
  clean_up = remove_results env

  unfoldable pub python_profiler : Profiler
  python_profiler = record { set_up = set_up; invoke = timed env invoke; clean_up = clean_up }
