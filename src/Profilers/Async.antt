-- ===== src/Profilers/Async.antt =====
-- internal/agent/profiler/jvm/async_profiler.go
use application_profiler.Base.{
  Bool, true, false, ◌||◌, wrap, List, [], ◌∷◌, String, ◌<>◌, ◌==◌, if◌then◌else◌,
}
use application_profiler.Base.Int.{ℤ, pos}
use application_profiler.FilePath.{join_paths}
use application_profiler.ResultFile.{profiling_prefix}
use application_profiler.Api.Outputs.{raw, collapsed}
use application_profiler.Job.{ProfilingJob}
use application_profiler.World.{Files, Command}
use application_profiler.FileSystem.{list, remove_all}
use application_profiler.Publisher.{publish}
use application_profiler.Container.Runtime.{container_file_system}
use application_profiler.Io.{
  Io, pure, ◌>>=◌, ◌>>◌, fail_if, run, get_job, get_files, change_files, try_files, lift,
  get_target_pids,
}
use application_profiler.Action.Run.{Profiler}
use application_profiler.Profilers.Env.{Env, interval_text, timed}
use application_profiler.Profilers.Targets.{set_up_targets, invoke_each, file_of}

abbrev pub async_profiler_dir : String
async_profiler_dir = "/tmp/async-profiler"

abbrev pub profiler_sh : String
profiler_sh = "/tmp/async-profiler/profiler.sh"

abbrev pub profiler_lib : String
profiler_lib = "/tmp/async-profiler/build/libasyncProfiler.so"

abbrev pub profiler_lib_musl : String
profiler_lib_musl = "/tmp/async-profiler/build/libasyncProfiler-musl.so"

abbrev pub async_profiler_delay_between_jobs : ℤ
async_profiler_delay_between_jobs = pos 2_000_000_000

unfoldable pub async_profiler_command : ProfilingJob → String → String → Command
unfolding interval_text
async_profiler_command job pid file_name = record {
  name = profiler_sh;
  args =
      "-o"
      ∷ (if job.output_type == raw then collapsed else job.output_type)
      ∷ "-d"
      ∷ interval_text job
      ∷ "-f"
      ∷ file_name
      ∷ "-e"
      ∷ job.event
      ∷ "--fdtransfer"
      ∷ pid
      ∷ [];
}

unfoldable pub async_profiler_stop_command : String → Command
async_profiler_stop_command pid = record { name = profiler_sh; args = "stop" ∷ pid ∷ [] }

abbrev has_match : String → Files → Bool
has_match pattern fs = elim (list pattern fs) [ [] ↦ false | f ∷ more ↦ true ]

-- An empty root counts as the default.
unfoldable pub target_uses_musl : String → Files → Bool
unfolding list join_paths
target_uses_musl target_fs fs =
    if target_fs == ""
    then false
    else has_match (join_paths (target_fs ∷ "lib" ∷ "ld-musl-*.so.1" ∷ [])) fs
      || has_match (join_paths (target_fs ∷ "usr/lib" ∷ "ld-musl-*.so.1" ∷ [])) fs

module _ (env : Env) where
  unfoldable pub copy_profiler_to_tmp_dir : Io (Unit {0})
  unfolding run
  copy_profiler_to_tmp_dir =
      run env.os (record { name = "cp"; args = "-r" ∷ "/app/async-profiler" ∷ env.os.tmp_dir ∷ [] })
      >>= λ out. fail_if (λ e. e) out.error

  unfoldable pub copy_musl_library : Io (Unit {0})
  unfolding run
  copy_musl_library =
      run env.os (record { name = "cp"; args = "-f" ∷ profiler_lib_musl ∷ profiler_lib ∷ [] })
      >>= λ out. fail_if (λ e. e) out.error

  unfoldable pub select_profiler_library : String → Io (Unit {0})
  unfolding target_uses_musl copy_musl_library
  select_profiler_library target_fs =
      get_files >>= λ fs. if target_uses_musl target_fs fs then copy_musl_library else pure tt

  -- The directory for temporary files becomes a link to that of the container.
  unfoldable pub link_tmp_dir : ProfilingJob → String → Io (Unit {0})
  unfolding try_files remove_all join_paths
  link_tmp_dir job target_fs = do
    try_files (env.os.remove_tree env.os.tmp_dir)
    change_files (
        remove_all env.os (join_paths (target_fs ∷ "tmp" ∷ []))
          (profiling_prefix <> job.output_type))
    try_files (env.os.symlink (join_paths (target_fs ∷ "tmp" ∷ [])) env.os.tmp_dir)

  unfoldable pub set_up : Io (Unit {0})
  unfolding link_tmp_dir set_up_targets copy_profiler_to_tmp_dir select_profiler_library
      container_file_system
  set_up = do
    job ← get_job
    target_fs ← lift (
        container_file_system env.containers job.container_runtime job.container_id
          job.container_runtime_path)
    link_tmp_dir job target_fs
    set_up_targets env
    copy_profiler_to_tmp_dir
    select_profiler_library target_fs

  -- `asyncProfilerManager.invoke`
  unfoldable pub invoke_pid : String → Io (Unit {0})
  unfolding run async_profiler_command file_of publish
  invoke_pid pid = do
    job ← get_job
    out ← run env.os (async_profiler_command job pid (file_of env job job.output_type pid))
    fail_if (wrap ("could not launch profiler: " <> out.stderr)) out.error
    publish env.os env.encode job.compressor (file_of env job job.output_type pid) job.output_type

  abbrev pub invoke : Io (Unit {0})
  invoke = invoke_each env async_profiler_delay_between_jobs invoke_pid

  -- The tool is stopped for each process; errors are only logged.
  unfoldable pub stop_each : List String → Io (Unit {0})
  unfolding run async_profiler_stop_command
  stop_each [] = pure tt
  stop_each (pid ∷ pids) =
      let rest = stop_each pids in run env.os (async_profiler_stop_command pid) >>= λ out. rest

  unfoldable pub clean_up : Io (Unit {0})
  unfolding stop_each remove_all
  clean_up = do
    job ← get_job
    pids ← get_target_pids
    stop_each pids
    change_files (λ fs. (env.os.remove_tree async_profiler_dir fs).1)
    change_files (remove_all env.os env.os.tmp_dir (profiling_prefix <> job.output_type))

  unfoldable pub async_profiler_profiler : Profiler
  async_profiler_profiler = record {
    set_up = set_up;
    invoke = timed env invoke;
    clean_up = clean_up;
  }
