-- ===== src/Profilers/Perf.antt =====
-- internal/agent/profiler/perf.go
use application_profiler.Base.{not, ltb, wrap, [], ◌∷◌, String, ◌<>◌}
use application_profiler.Base.Int.{ℤ, pos}
use application_profiler.Base.Digits.{itoa}
use application_profiler.ResultFile.{profiling_prefix}
use application_profiler.Api.Outputs.{raw}
use application_profiler.Job.{ProfilingJob}
use application_profiler.Legend.{add_process_pid_legend}
use application_profiler.World.{Command}
use application_profiler.FileSystem.{write, remove_all, put}
use application_profiler.Publisher.{publish, create_file}
use application_profiler.Io.{Io, pure, ◌>>=◌, ◌>>◌, fail_if, wrapped, run, get_job, change_files}
use application_profiler.Flamegraph.Grapher.{FrameGrapher, get_grapher}
use application_profiler.Action.Run.{Profiler}
use application_profiler.Profilers.Env.{Env, interval_text, timed}
use application_profiler.Profilers.Targets.{set_up_targets, invoke_each, file_of}
use application_profiler.Profilers.Flames.{flames_if, minimum_raw_size}

abbrev pub perf_location : String
perf_location = "/app/perf"

abbrev pub flame_graph_stack_collapse_location : String
flame_graph_stack_collapse_location = "/app/FlameGraph/stackcollapse-perf.pl"

abbrev pub perf_delay_between_jobs : ℤ
perf_delay_between_jobs = pos 2_000_000_000

-- `fmt.Sprintf(perfRecordOutputFileName, pid, job.Iteration)`
unfoldable pub perf_record_output_file_name : ProfilingJob → String → String
unfolding itoa
perf_record_output_file_name job pid =
    "/tmp/perf-" <> (pid <> ("-" <> (itoa job.iteration <> ".data")))

-- `fmt.Sprintf(perfScriptOutputFileName, pid, job.Iteration)`
unfoldable pub perf_script_output_file_name : ProfilingJob → String → String
unfolding itoa
perf_script_output_file_name job pid =
    "/tmp/perf-" <> (pid <> ("-" <> (itoa job.iteration <> ".out")))

unfoldable pub record_command : ProfilingJob → String → Command
unfolding interval_text perf_record_output_file_name
record_command job pid = record {
  name = perf_location;
  args =
      "record"
      ∷ "-p"
      ∷ pid
      ∷ "-o"
      ∷ perf_record_output_file_name job pid
      ∷ "-g"
      ∷ "--"
      ∷ "sleep"
      ∷ interval_text job
      ∷ [];
}

unfoldable pub script_command : ProfilingJob → String → Command
unfolding perf_record_output_file_name
script_command job pid = record {
  name = perf_location;
  args = "script" ∷ "-i" ∷ perf_record_output_file_name job pid ∷ [];
}

unfoldable pub fold_command : ProfilingJob → String → Command
unfolding perf_script_output_file_name
fold_command job pid = record {
  name = flame_graph_stack_collapse_location;
  args = perf_script_output_file_name job pid ∷ [];
}

module _ (env : Env) where
  unfoldable pub handle_flamegraph : ProfilingJob → FrameGrapher → String → String → Io (Unit {0})
  unfolding flames_if
  handle_flamegraph = flames_if env (λ n. not (ltb n minimum_raw_size))

  unfoldable pub run_perf_record : ProfilingJob → String → Io (Unit {0})
  unfolding run record_command
  run_perf_record job pid =
      run env.os (record_command job pid) >>= λ out. fail_if (λ e. e) out.error

  -- The script's output goes to the file, even if the script fails.
  unfoldable pub run_perf_script : ProfilingJob → String → Io (Unit {0})
  unfolding run script_command create_file put
  run_perf_script job pid = do
    create_file env.os (perf_script_output_file_name job pid)
    out ← run env.os (script_command job pid)
    change_files (put (perf_script_output_file_name job pid) out.stdout)
    fail_if (λ e. e) out.error

  unfoldable pub fold_perf_output : ProfilingJob → String → Io String
  unfolding run fold_command write add_process_pid_legend file_of
  fold_perf_output job pid = do
    out ← run env.os (fold_command job pid)
    fail_if (wrap ("could not launch profiler: " <> out.stderr)) out.error
    change_files (
        write env.os (file_of env job raw pid) (add_process_pid_legend env.packages out.stdout pid))
    pure (file_of env job raw pid)

  -- `perfManager.invoke`
  unfoldable pub invoke_pid : String → Io (Unit {0})
  unfolding publish file_of handle_flamegraph get_grapher run_perf_record run_perf_script
      fold_perf_output
  invoke_pid pid = do
    job ← get_job
    wrapped "perf record failed" (run_perf_record job pid)
    wrapped "perf script failed" (run_perf_script job pid)
    file_name ← wrapped "folding perf output failed" (fold_perf_output job pid)
    grapher ← get_grapher env.packages
    wrapped "could not generate flamegraph"
        (handle_flamegraph job grapher file_name (file_of env job job.output_type pid))
    publish env.os env.encode job.compressor (file_of env job job.output_type pid) job.output_type

  -- The files of the tool, and those of the job's output type.
  unfoldable pub remove_perf_results : Io (Unit {0})
  unfolding remove_all
  remove_perf_results = do
    job ← get_job
    change_files (remove_all env.os env.os.tmp_dir "perf")
    change_files (remove_all env.os env.os.tmp_dir (profiling_prefix <> job.output_type))

  abbrev set_up : Io (Unit {0})
  set_up = set_up_targets env

  abbrev pub invoke : Io (Unit {0})
  invoke = invoke_each env perf_delay_between_jobs invoke_pid

  abbrev clean_up : Io (Unit {0})
  clean_up = remove_perf_results

  unfoldable pub perf_profiler : Profiler
  perf_profiler = record { set_up = set_up; invoke = timed env invoke; clean_up = clean_up }
