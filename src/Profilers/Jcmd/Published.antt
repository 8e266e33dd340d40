-- ===== src/Profilers/Jcmd/Published.antt =====
-- The profiler for jcmd publishes one result for a process, or fails and publishes none.
use application_profiler.Base.{ℕ, zero, suc, Option, none, some, String}
use application_profiler.Job.{ProfilingJob}
use application_profiler.Compressor.{CompressorType}
use application_profiler.Api.Outputs.{OutputType}
use application_profiler.Os.{Completed}
use application_profiler.World.{Channel}
use application_profiler.Io.{Io}
use application_profiler.Io.Results.{IsQuiet, Publishes, quiet, publishes}
use application_profiler.Publisher.Results.{
  create_file-IsQuiet, publish-Publishes, publish_chunks-Publishes,
}
use application_profiler.Action.Published.{IsProductive}
use application_profiler.Profilers.Env.{Env}
use application_profiler.Profilers.Productive.{
  productive, set_up_targets-IsQuiet, async_link-IsQuiet,
}
use application_profiler.Profilers.Jcmd.{
  handle_jfr_file, write_file, handle_profiling_result, publish_result, invoke_pid, set_up,
  copy_jfr_settings_to_tmp_dir, jcmd_profiler,
}
use application_profiler.Profilers.Jcmd.Recording.{await_recording, pass_second, poll}

module _ (env : Env) where
  pass-IsQuiet : IsQuiet (pass_second env)
  unfolding pass_second
  pass-IsQuiet = search quiet

  poll-IsQuiet :
      (pid : String) (n : ℕ) (o : OutputType) (again : Io (Unit {0}))
      (r : Option (String × Channel))
      → IsQuiet again
      → IsQuiet (poll env pid n o again r)
  unfolding poll
  poll-IsQuiet pid n o again none h = search quiet depth 40 fits 4000
  poll-IsQuiet pid n o again (some (p, c)) h = search quiet depth 40 fits 4000

  await-IsQuiet :
      (fuel : ℕ) (pid : String) (n : ℕ) (o : OutputType)
      → IsQuiet (await_recording env fuel pid n o)
  unfolding await_recording
  await-IsQuiet zero pid n o = search quiet
  await-IsQuiet (suc fuel) pid n o =
      search (quiet, pass-IsQuiet, poll-IsQuiet, await-IsQuiet fuel pid n o) depth 40 fits 4000

  jfr-IsQuiet : (f : String) → IsQuiet (handle_jfr_file env f)
  unfolding handle_jfr_file
  jfr-IsQuiet f = search quiet depth 40 fits 4000

  write-IsQuiet : (f c : String) → IsQuiet (write_file env f c)
  unfolding write_file
  write-IsQuiet f c = search (quiet, create_file-IsQuiet)

  handle-IsQuiet :
      (job : ProfilingJob) (f : String) (out : Completed) (pid : String)
      → IsQuiet (handle_profiling_result env job f out pid)
  unfolding handle_profiling_result
  handle-IsQuiet job f out pid =
      search (quiet, await-IsQuiet, jfr-IsQuiet, write-IsQuiet) depth 40 fits 4000

  result-Publishes :
      (c : CompressorType) (f : String) (o : OutputType) (size : String)
      → Publishes (publish_result env c f o size)
  unfolding publish_result
  result-Publishes c f o size =
      search (publishes, publish-Publishes, publish_chunks-Publishes) depth 40 fits 4000

  jcmd-Publishes : (pid : String) → Publishes (invoke_pid env pid)
  unfolding invoke_pid
  jcmd-Publishes pid = search (publishes, handle-IsQuiet, result-Publishes) depth 40 fits 4000

  copy-IsQuiet : IsQuiet (copy_jfr_settings_to_tmp_dir env)
  unfolding copy_jfr_settings_to_tmp_dir
  copy-IsQuiet = search quiet depth 40 fits 4000

  set_up-IsQuiet : IsQuiet (set_up env)
  unfolding set_up
  set_up-IsQuiet =
      search (quiet, async_link-IsQuiet, set_up_targets-IsQuiet, copy-IsQuiet) depth 40 fits 4000

  -- The profiler for jcmd publishes a result in every round that succeeds, and none in a round that
  -- fails.
  pub jcmd_profiler-IsProductive : IsProductive (jcmd_profiler env)
  unfolding jcmd_profiler
  jcmd_profiler-IsProductive = productive env _ _ jcmd-Publishes _ _ set_up-IsQuiet
