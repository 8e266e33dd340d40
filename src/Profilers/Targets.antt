-- ===== src/Profilers/Targets.antt =====
-- How the profilers choose the processes, run over them, and clean up.
use application_profiler.Base.{panic, none, some, List, [], ◌∷◌, String, if◌then◌else◌}
use application_profiler.Base.Int.{ℤ}
use application_profiler.ResultFile.{profiling_prefix, get_result_file}
use application_profiler.Api.Outputs.{OutputType}
use application_profiler.Job.{ProfilingJob}
use application_profiler.FileSystem.{remove_all}
use application_profiler.Pids.Serial.{profile_serially, emit_all}
use application_profiler.Io.{Io, ◌>>=◌, get_job, set_target_pids, get_target_pids, change_files}
use application_profiler.Container.Candidates.{get_candidate_pids}
use application_profiler.Profilers.Env.{Env}

module _ (env : Env) where
  -- `util.GetCandidatePIDs`. Where the fuel does not reach the leaves of the process tree, there is no
  -- result.
  unfoldable pub get_candidates : ProfilingJob → Io (List String)
  unfolding get_candidate_pids
  get_candidates job w =
      elim (get_candidate_pids env.packages env.containers env.commander env.fuel job) [
        | none ↦ (panic, w)
        | some (found, events) ↦ (found, emit_all events w)
      ]

  -- `SetUp`: the process that was asked for, or those of the container.
  unfoldable pub set_up_targets : Io (Unit {0})
  unfolding get_candidates
  set_up_targets = get_job >>= λ job.
      if env.packages.is_not_blank job.pid
      then set_target_pids (job.pid ∷ [])
      else get_candidates job >>= λ pids. set_target_pids pids

  -- `Invoke`
  unfoldable pub invoke_each : ℤ → (String → Io (Unit {0})) → Io (Unit {0})
  unfolding profile_serially
  invoke_each delay invoke = get_target_pids >>= λ pids. profile_serially env.text delay invoke pids

  -- `CleanUp`
  unfoldable pub remove_results : Io (Unit {0})
  unfolding remove_all
  remove_results = change_files (λ fs. remove_all env.os env.os.tmp_dir profiling_prefix fs)

  -- `common.GetResultFile(common.TmpDir(), job.Tool, outputType, pid, job.Iteration)`
  unfoldable pub file_of : ProfilingJob → OutputType → String → String
  unfolding get_result_file
  file_of job output_type pid =
      get_result_file env.os.tmp_dir job.tool output_type pid job.iteration
