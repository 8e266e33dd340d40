-- ===== src/Profilers/CleanUp.antt =====
-- No profiler sends an event when it cleans up.
use application_profiler.Base.{none, some, Option, List, [], ◌∷◌, String}
use application_profiler.Job.{ProfilingJob}
use application_profiler.World.{Channel, absent, opened, closed}
use application_profiler.Io.Silent.{IsSilent, silence}
use application_profiler.Api.Tools.{ProfilingTool}
use application_profiler.Profilers.Env.{Env}
use application_profiler.Profilers.Targets.{remove_results}
use application_profiler.Profilers.Async
use application_profiler.Profilers.Jcmd
use application_profiler.Profilers.Perf
use application_profiler.Profilers.Python.{python_profiler}
use application_profiler.Profilers.Ruby.{ruby_profiler}
use application_profiler.Profilers.Bpf.{bpf_profiler}
use application_profiler.Profilers.Perf.{perf_profiler}
use application_profiler.Profilers.Node.{node_dummy_profiler}
use application_profiler.Profilers.GoPprof.{go_pprof_profiler}
use application_profiler.Profilers.Austin.Invoke.{austin_python_profiler}
use application_profiler.Profilers.Factory.{Tools, get, get_cases, mock_profiler}

module _ (env : Env) where
  remove-IsSilent : IsSilent (remove_results env)
  unfolding remove_results
  remove-IsSilent = search silence

  stop_each-IsSilent : (pids : List String) → IsSilent (Async.stop_each env pids)
  unfolding Async.stop_each
  stop_each-IsSilent [] = search silence
  stop_each-IsSilent (pid ∷ pids) = search (silence, stop_each-IsSilent pids)

  async_clean_up-IsSilent : IsSilent (Async.clean_up env)
  unfolding Async.clean_up
  async_clean_up-IsSilent = search (silence, stop_each-IsSilent) depth 40 fits 4000

  changed-IsSilent : (o : Option Channel) → IsSilent (Jcmd.set_or_panic o)
  unfolding Jcmd.set_or_panic
  changed-IsSilent none = search silence
  changed-IsSilent (some c) = search silence

  change-IsSilent : (f : Channel → Option Channel) → IsSilent (Jcmd.change_recordings f)
  unfolding Jcmd.change_recordings
  change-IsSilent f = search (silence, changed-IsSilent)

  stops-IsSilent :
      (job : ProfilingJob) (pids : List String) → IsSilent (Jcmd.stop_recordings env job pids)
  unfolding Jcmd.stop_recordings Jcmd.stop_recording
  stops-IsSilent job [] = search silence
  stops-IsSilent job (pid ∷ pids) =
      search (silence, change-IsSilent, stops-IsSilent job pids) depth 40 fits 4000

  typed-IsSilent : (job : ProfilingJob) → IsSilent (Jcmd.remove_typed_results env job)
  unfolding Jcmd.remove_typed_results
  typed-IsSilent job = search silence

  close-IsSilent : (job : ProfilingJob) → IsSilent (Jcmd.stop_and_close env job)
  unfolding Jcmd.stop_and_close
  close-IsSilent job = search (silence, stops-IsSilent, change-IsSilent) depth 40 fits 4000

  release-IsSilent : (job : ProfilingJob) (c : Channel) → IsSilent (Jcmd.release env job c)
  unfolding Jcmd.release
  release-IsSilent job absent = typed-IsSilent job
  release-IsSilent job (opened n pids) = search (silence, close-IsSilent)
  release-IsSilent job (closed pids) = search (silence, close-IsSilent)

  jcmd_clean_up-IsSilent : IsSilent (Jcmd.clean_up env)
  unfolding Jcmd.clean_up
  jcmd_clean_up-IsSilent = search (silence, release-IsSilent) depth 40 fits 4000

  perf_clean_up-IsSilent : IsSilent (Perf.remove_perf_results env)
  unfolding Perf.remove_perf_results
  perf_clean_up-IsSilent = search silence depth 40 fits 4000

  mock_clean_up-IsSilent : IsSilent (mock_profiler env).clean_up
  unfolding mock_profiler
  mock_clean_up-IsSilent = search silence

pub get-clean_up-IsSilent : (t : Tools) (tool : ProfilingTool) → IsSilent (get t tool).clean_up
unfolding python_profiler ruby_profiler bpf_profiler perf_profiler go_pprof_profiler
    austin_python_profiler Async.async_profiler_profiler node_dummy_profiler Jcmd.jcmd_profiler
get-clean_up-IsSilent t tool =
    let removed = remove-IsSilent t.env in
    get_cases (λ p. IsSilent p.clean_up) t tool (jcmd_clean_up-IsSilent t.env)
      (async_clean_up-IsSilent t.env) removed removed (perf_clean_up-IsSilent t.env) removed removed
      removed removed (mock_clean_up-IsSilent t.env)
