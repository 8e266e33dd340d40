-- ===== src/Profilers/SetUp.antt =====
-- No profiler changes the running job when it is set up.
use application_profiler.Base.{◌≡◌, refl, List, [], ◌∷◌, String, Option-cases, arith, inl, inr}
use application_profiler.Job.{ProfilingJob}
use application_profiler.World.{World, Event}
use application_profiler.Io.Kept.{KeepsJob, keeping}
use application_profiler.Pids.Serial.{emit_all}
use application_profiler.Api.Tools.{ProfilingTool}
use application_profiler.Container.Candidates.{get_candidate_pids}
use application_profiler.Profilers.Env.{Env}
use application_profiler.Profilers.Targets.{get_candidates, set_up_targets}
use application_profiler.Profilers.Async
use application_profiler.Profilers.Node
use application_profiler.Profilers.Jcmd
use application_profiler.Profilers.Python.{python_profiler}
use application_profiler.Profilers.Ruby.{ruby_profiler}
use application_profiler.Profilers.Bpf.{bpf_profiler}
use application_profiler.Profilers.Perf.{perf_profiler}
use application_profiler.Profilers.GoPprof.{go_pprof_profiler}
use application_profiler.Profilers.Austin.Invoke.{austin_python_profiler}
use application_profiler.Profilers.Factory.{Tools, get, get_cases, mock_profiler}

emit_all-job : (es : List Event) (w : World) → (emit_all es w).job ≡ w.job
emit_all-job [] w = refl
emit_all-job (e ∷ es) w = emit_all-job es _

module _ (env : Env) where
  get_candidates-KeepsJob : (job : ProfilingJob) → KeepsJob (get_candidates env job)
  unfolding KeepsJob get_candidates
  get_candidates-KeepsJob job w =
      elim (Option-cases
        (get_candidate_pids env.packages env.containers env.commander env.fuel job)) [
          | inl e ↦ ground arith
          | inr (v, e) ↦ ground (arith, emit_all-job v.1 w)
        ]

  set_up_targets-KeepsJob : KeepsJob (set_up_targets env)
  unfolding set_up_targets
  set_up_targets-KeepsJob = search (keeping, get_candidates-KeepsJob) depth 40 fits 4000

  link-KeepsJob :
      (job : ProfilingJob) (target_fs : String) → KeepsJob (Async.link_tmp_dir env job target_fs)
  unfolding Async.link_tmp_dir
  link-KeepsJob job target_fs = search keeping depth 40 fits 4000

  async_set_up-KeepsJob : KeepsJob (Async.set_up env)
  unfolding Async.set_up Async.copy_profiler_to_tmp_dir Async.select_profiler_library
      Async.copy_musl_library
  async_set_up-KeepsJob =
      search (keeping, link-KeepsJob, set_up_targets-KeepsJob) depth 40 fits 4000

  node_set_up-KeepsJob : KeepsJob (Node.set_up env)
  unfolding Node.set_up
  node_set_up-KeepsJob = search keeping depth 40 fits 4000

  jcmd_set_up-KeepsJob : KeepsJob (Jcmd.set_up env)
  unfolding Jcmd.set_up Jcmd.copy_jfr_settings_to_tmp_dir
  jcmd_set_up-KeepsJob = search (keeping, link-KeepsJob, set_up_targets-KeepsJob) depth 40 fits 4000

  mock_set_up-KeepsJob : KeepsJob (mock_profiler env).set_up
  unfolding mock_profiler
  mock_set_up-KeepsJob = search keeping depth 40 fits 4000

pub get-set_up-KeepsJob : (t : Tools) (tool : ProfilingTool) → KeepsJob (get t tool).set_up
unfolding python_profiler ruby_profiler bpf_profiler perf_profiler go_pprof_profiler
    austin_python_profiler Async.async_profiler_profiler Node.node_dummy_profiler Jcmd.jcmd_profiler
get-set_up-KeepsJob t tool =
    let targets = set_up_targets-KeepsJob t.env in
    get_cases (λ p. KeepsJob p.set_up) t tool (jcmd_set_up-KeepsJob t.env)
      (async_set_up-KeepsJob t.env) targets targets targets targets targets targets
      (node_set_up-KeepsJob t.env) (mock_set_up-KeepsJob t.env)
