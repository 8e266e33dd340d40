-- ===== src/Profilers/Bpf.antt =====
-- internal/agent/profiler/bpf.go
use application_profiler.Base.{not, ltb, wrap, [], ◌∷◌, String, ◌<>◌}
use application_profiler.Base.Int.{ℤ, pos}
use application_profiler.Api.Outputs.{raw}
use application_profiler.Job.{ProfilingJob}
use application_profiler.Legend.{add_process_pid_legend}
use application_profiler.World.{Command}
use application_profiler.FileSystem.{write}
use application_profiler.Publisher.{publish}
use application_profiler.Io.{Io, ◌>>=◌, ◌>>◌, fail_if, wrapped, run, get_job, change_files}
use application_profiler.Flamegraph.Grapher.{FrameGrapher, get_grapher}
use application_profiler.Action.Run.{Profiler}
use application_profiler.Profilers.Env.{Env, interval_text, timed}
use application_profiler.Profilers.Targets.{set_up_targets, invoke_each, remove_results, file_of}
use application_profiler.Profilers.Flames.{flames_if, minimum_raw_size}

abbrev pub profiler_location : String
profiler_location = "/app/bcc-profiler/profile"

abbrev pub bpf_delay_between_jobs : ℤ
bpf_delay_between_jobs = pos 5_000_000_000

unfoldable pub bcc_profiler_command : ProfilingJob → String → Command
unfolding interval_text
bcc_profiler_command job pid = record {
  name = profiler_location;
  args = "-df" ∷ "-U" ∷ "-F" ∷ "99" ∷ "-p" ∷ pid ∷ interval_text job ∷ [];
}

module _ (env : Env) where
  unfoldable pub handle_flamegraph : ProfilingJob → FrameGrapher → String → String → Io (Unit {0})
  unfolding flames_if
  handle_flamegraph = flames_if env (λ n. not (ltb n minimum_raw_size))

  -- `bpfManager.invoke`
  unfoldable pub invoke_pid : String → Io (Unit {0})
  unfolding publish bcc_profiler_command run file_of handle_flamegraph get_grapher write
      add_process_pid_legend
  invoke_pid pid = do
    job ← get_job
    out ← run env.os (bcc_profiler_command job pid)
    fail_if (wrap ("could not launch profiler: " <> out.stderr)) out.error
    change_files (
        write env.os (file_of env job raw pid) (add_process_pid_legend env.packages out.stdout pid))
    grapher ← get_grapher env.packages
    wrapped "could not generate flamegraph" (
        handle_flamegraph job grapher (file_of env job raw pid)
          (file_of env job job.output_type pid))
    publish env.os env.encode job.compressor (file_of env job job.output_type pid) job.output_type

  abbrev set_up : Io (Unit {0})
  set_up = set_up_targets env

  abbrev pub invoke : Io (Unit {0})
  invoke = invoke_each env bpf_delay_between_jobs invoke_pid

  abbrev clean_up : Io (Unit {0})
  clean_up = remove_results env

  unfoldable pub bpf_profiler : Profiler
  bpf_profiler = record { set_up = set_up; invoke = timed env invoke; clean_up = clean_up }
