-- ===== src/Profilers/Published.antt =====
-- Every profiler publishes one result for a process, or fails and publishes none.
use application_profiler.Base.{ℕ, Bool, String}
use application_profiler.Job.{ProfilingJob}
use application_profiler.Os.{Os, Completed}
use application_profiler.External.{External}
use application_profiler.Io.Results.{IsQuiet, Publishes, quiet, publishes}
use application_profiler.Publisher.Results.{
  open_file-IsQuiet, create_file-IsQuiet, publish-Publishes,
}
use application_profiler.Flamegraph.Options.{Script}
use application_profiler.Flamegraph.Grapher.{
  FrameGrapher, script, fake, fake_with_error, get_grapher, run_script,
  stack_samples_to_flame_graph,
}
use application_profiler.Profilers.Env.{Env}
use application_profiler.Profilers.Flames.{flames_if, convert}
use application_profiler.Profilers.Python
use application_profiler.Profilers.Ruby
use application_profiler.Profilers.Bpf
use application_profiler.Profilers.Perf

pub get_grapher-IsQuiet : (x : External) → IsQuiet (get_grapher x)
unfolding get_grapher
get_grapher-IsQuiet x = search quiet depth 40 fits 4000

run_script-IsQuiet :
    (x : External) (os : Os) (g : Script) (input output : String)
    → IsQuiet (run_script x os g input output)
unfolding run_script
run_script-IsQuiet x os g input output =
    search (quiet, open_file-IsQuiet, create_file-IsQuiet) depth 40 fits 4000

stack_samples-IsQuiet :
    (x : External) (os : Os) (g : FrameGrapher) (input output : String)
    → IsQuiet (stack_samples_to_flame_graph x os g input output)
unfolding stack_samples_to_flame_graph
stack_samples-IsQuiet x os (script g) input output = run_script-IsQuiet x os g input output
stack_samples-IsQuiet x os fake input output = search quiet
stack_samples-IsQuiet x os fake_with_error input output = search quiet

module _ (env : Env) where
  pub flames_if-IsQuiet :
      (enough : ℕ → Bool) (job : ProfilingJob) (g : FrameGrapher) (input output : String)
      → IsQuiet (flames_if env enough job g input output)
  unfolding flames_if convert
  flames_if-IsQuiet enough job g input output =
      search (quiet, stack_samples-IsQuiet) depth 40 fits 4000

  ruleset profiling =
      (publishes, publish-Publishes, create_file-IsQuiet, get_grapher-IsQuiet, flames_if-IsQuiet)

  finish_file-IsQuiet :
      (job : ProfilingJob) (f g : String) (out : Completed)
      → IsQuiet (Python.finish_file env job f g out)
  unfolding Python.finish_file Python.handle_flamegraph
  finish_file-IsQuiet job f g out = search profiling depth 40 fits 4000

  pub python-Publishes : (pid : String) → Publishes (Python.invoke_pid env pid)
  unfolding Python.invoke_pid
  python-Publishes pid = search (profiling, finish_file-IsQuiet) depth 40 fits 4000

  pub ruby-Publishes : (pid : String) → Publishes (Ruby.invoke_pid env pid)
  unfolding Ruby.invoke_pid
  ruby-Publishes pid = search profiling depth 40 fits 4000

  pub bpf-Publishes : (pid : String) → Publishes (Bpf.invoke_pid env pid)
  unfolding Bpf.invoke_pid Bpf.handle_flamegraph
  bpf-Publishes pid = search profiling depth 40 fits 4000

  record-IsQuiet : (job : ProfilingJob) (pid : String) → IsQuiet (Perf.run_perf_record env job pid)
  unfolding Perf.run_perf_record
  record-IsQuiet job pid = search profiling depth 40 fits 4000

  script-IsQuiet : (job : ProfilingJob) (pid : String) → IsQuiet (Perf.run_perf_script env job pid)
  unfolding Perf.run_perf_script
  script-IsQuiet job pid = search profiling depth 40 fits 4000

  fold-IsQuiet : (job : ProfilingJob) (pid : String) → IsQuiet (Perf.fold_perf_output env job pid)
  unfolding Perf.fold_perf_output
  fold-IsQuiet job pid = search profiling depth 40 fits 4000

  pub perf-Publishes : (pid : String) → Publishes (Perf.invoke_pid env pid)
  unfolding Perf.invoke_pid Perf.handle_flamegraph
  perf-Publishes pid =
      search (profiling, record-IsQuiet, script-IsQuiet, fold-IsQuiet) depth 40 fits 4000
