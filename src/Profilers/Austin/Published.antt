-- ===== src/Profilers/Austin/Published.antt =====
-- The profiler for austin publishes one result for a process, or fails and publishes none.
use application_profiler.Base.{ℕ, String, List, [], ◌∷◌}
use application_profiler.Base.Int.{ℤ}
use application_profiler.Job.{ProfilingJob}
use application_profiler.Io.{Io}
use application_profiler.Io.Results.{IsQuiet, Publishes, quiet, publishes}
use application_profiler.Publisher.Results.{open_file-IsQuiet, publish-Publishes}
use application_profiler.Profilers.Env.{Env}
use application_profiler.Profilers.Published.{get_grapher-IsQuiet, flames_if-IsQuiet}
use application_profiler.Action.Published.{IsProductive}
use application_profiler.Profilers.Productive.{productive, set_up_targets-IsQuiet}
use application_profiler.Profilers.Austin.Targets.{TargetFile, Proc}
use application_profiler.Profilers.Austin.Invoke.{
  run_mojo2austin, convert_mojo, austin_sample_count, append_line, check_samples, draw_flames,
  sample_pid, removing_copies, invoke_pid, austin_python_profiler,
}

module _ (env : Env) (proc : Proc) (script : String) (duration_text : ℤ → String) where
  mojo-IsQuiet : (f : String) → IsQuiet (run_mojo2austin env proc script duration_text f)
  unfolding run_mojo2austin
  mojo-IsQuiet f = search quiet depth 40 fits 4000

  convert-IsQuiet : (f : String) → IsQuiet (convert_mojo env proc script duration_text f)
  unfolding convert_mojo
  convert-IsQuiet f = search (quiet, open_file-IsQuiet, mojo-IsQuiet) depth 40 fits 4000

  count-IsQuiet : (f : String) → IsQuiet (austin_sample_count env proc script duration_text f)
  unfolding austin_sample_count
  count-IsQuiet f = search (quiet, open_file-IsQuiet) depth 40 fits 4000

  append-IsQuiet : (f line : String) → IsQuiet (append_line env proc script duration_text f line)
  unfolding append_line
  append-IsQuiet f line = search (quiet, open_file-IsQuiet) depth 40 fits 4000

  check-IsQuiet :
      (job : ProfilingJob) (pid f : String) (n : ℕ)
      → IsQuiet (check_samples env proc script duration_text job pid f n)
  unfolding check_samples
  check-IsQuiet job pid f n = search (quiet, append-IsQuiet) depth 40 fits 4000

  draw-IsQuiet :
      (job : ProfilingJob) (f g : String)
      → IsQuiet (draw_flames env proc script duration_text job f g)
  unfolding draw_flames
  draw-IsQuiet job f g = search (quiet, get_grapher-IsQuiet, flames_if-IsQuiet) depth 40 fits 4000

  sample-Publishes :
      (pid : String) (files : List TargetFile)
      → Publishes (sample_pid env proc script duration_text pid files)
  unfolding sample_pid
  sample-Publishes pid files =
      search
        (publishes, convert-IsQuiet, count-IsQuiet, check-IsQuiet, draw-IsQuiet, publish-Publishes)
        depth 40 fits 4000

  removing-Publishes :
      (dir : String) (files : List TargetFile) (m : Io (Unit {0}))
      → Publishes m
      → Publishes (removing_copies env proc script duration_text dir files m)
  unfolding removing_copies Publishes
  removing-Publishes dir [] m h w = h w
  removing-Publishes dir (f ∷ fs) m h w = h w

  austin-Publishes : (pid : String) → Publishes (invoke_pid env proc script duration_text pid)
  unfolding invoke_pid
  austin-Publishes pid = removing-Publishes _ _ _ (sample-Publishes pid _)

  -- The profiler for austin publishes a result in every round that succeeds, and none in a round
  -- that fails.
  pub austin_python_profiler-IsProductive :
      IsProductive (austin_python_profiler env proc script duration_text)
  unfolding austin_python_profiler
  austin_python_profiler-IsProductive =
      productive env _ _ austin-Publishes _ _ (set_up_targets-IsQuiet env)
