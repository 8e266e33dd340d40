-- ===== src/Profilers/Ruby.antt =====
-- internal/agent/profiler/ruby.go
use application_profiler.Base.{wrap, [], ◌∷◌, String, ◌<>◌}
use application_profiler.Base.Int.{ℤ, pos}
use application_profiler.Job.{ProfilingJob}
use application_profiler.World.{Command}
use application_profiler.Publisher.{publish}
use application_profiler.Io.{Io, ◌>>=◌, ◌>>◌, fail_if, run, get_job}
use application_profiler.Action.Run.{Profiler}
use application_profiler.Profilers.Env.{Env, interval_text, timed}
use application_profiler.Profilers.Targets.{set_up_targets, invoke_each, remove_results, file_of}

abbrev pub rb_spy_location : String
rb_spy_location = "/app/rbspy"

abbrev pub rb_spy_delay_between_jobs : ℤ
rb_spy_delay_between_jobs = pos 2_000_000_000

unfoldable pub ruby_command : ProfilingJob → String → String → Command
unfolding interval_text
ruby_command job pid file_name = record {
  name = rb_spy_location;
  args =
      "record"
      ∷ "--pid"
      ∷ pid
      ∷ "--file"
      ∷ file_name
      ∷ "--duration"
      ∷ interval_text job
      ∷ "--format"
      ∷ job.output_type
      ∷ [];
}

module _ (env : Env) where
  -- `rubyManager.invoke`
  unfoldable pub invoke_pid : String → Io (Unit {0})
  unfolding publish ruby_command run file_of
  invoke_pid pid = do
    job ← get_job
    out ← run env.os (ruby_command job pid (file_of env job job.output_type pid))
    fail_if (wrap ("could not launch profiler: " <> out.stderr)) out.error
    publish env.os env.encode job.compressor (file_of env job job.output_type pid) job.output_type

  abbrev set_up : Io (Unit {0})
  set_up = set_up_targets env

  abbrev pub invoke : Io (Unit {0})
  invoke = invoke_each env rb_spy_delay_between_jobs invoke_pid

  abbrev clean_up : Io (Unit {0})
  clean_up = remove_results env

  unfoldable pub ruby_profiler : Profiler
  ruby_profiler = record { set_up = set_up; invoke = timed env invoke; clean_up = clean_up }
