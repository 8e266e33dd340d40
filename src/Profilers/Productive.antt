-- ===== src/Profilers/Productive.antt =====
-- The profilers as `Run` sees them.
use application_profiler.Base.{
  Result-cases, Option-cases, Bool-cases, inl, inr, ltb, length, ◌≡◌, refl, List, String, arith,
}
use application_profiler.Base.Int.{ℤ}
use application_profiler.World.{World}
use application_profiler.Job.{ProfilingJob}
use application_profiler.Io.{Io, ◌>>=◌, get_target_pids}
use application_profiler.Io.Results.{
  IsQuiet, Publishes, quiet, publishes, result_events, result_events-append,
}
use application_profiler.Pids.Serial.{emit_all}
use application_profiler.Pids.Published.{profile_serially_publishes, profile_serially_fails}
use application_profiler.Action.Published.{IsProductive}
use application_profiler.Profilers.Env.{Env, timed}
use application_profiler.Profilers.Targets.{get_candidates, set_up_targets, invoke_each}
use application_profiler.Profilers.Published.{
  python-Publishes, ruby-Publishes, bpf-Publishes, perf-Publishes,
}
use application_profiler.Container.Runtime.{get_root_pid}
use application_profiler.Container.Children.{fill_with_children_pids, get_child}
use application_profiler.Container.Candidates.{several_notice, select_pids, get_candidate_pids}
use application_profiler.Profilers.Fetched.{async-Publishes, node-Publishes, go_pprof-Publishes}
use application_profiler.Profilers.Async
use application_profiler.Profilers.Node
use application_profiler.Profilers.GoPprof
use application_profiler.Profilers.Python.{python_profiler}
use application_profiler.Profilers.Ruby.{ruby_profiler}
use application_profiler.Profilers.Bpf.{bpf_profiler}
use application_profiler.Profilers.Perf.{perf_profiler}

emit_several_notice :
    (pids : List String) (w : World)
    → result_events (emit_all (several_notice pids) w).acts ≡ result_events w.acts
emit_several_notice pids w = elim (Bool-cases (ltb 1 (length pids))) [
  | inl e ↦ rw e (omega (arith, result_events-append w.acts _))
  | inr e ↦ rw e refl
]

module _ (env : Env) where
  get_candidates-IsQuiet : (job : ProfilingJob) → IsQuiet (get_candidates env job)
  unfolding IsQuiet get_candidates get_candidate_pids
  get_candidates-IsQuiet job w = elim (Result-cases (get_root_pid env.containers job)) [
    | inl (pid, e) ↦
        elim (Option-cases (
          fill_with_children_pids env.packages (get_child env.packages env.commander) env.fuel
            pid)) [
              | inl q ↦ ground arith
              | inr (leaves, q) ↦
                  elim (Result-cases
                    (select_pids env.packages env.containers env.commander env.fuel job leaves)) [
                      | inl (pids, r) ↦ ground (arith, emit_several_notice pids w)
                      | inr (inl (x, r)) ↦ ground arith
                      | inr (inr r) ↦ ground arith
                    ]
            ]
    | inr (inl (x, e)) ↦ ground arith
    | inr (inr e) ↦ ground arith
  ]

  pub set_up_targets-IsQuiet : IsQuiet (set_up_targets env)
  unfolding set_up_targets
  set_up_targets-IsQuiet = search (quiet, get_candidates-IsQuiet) depth 40 fits 4000

  module _ (delay : ℤ) (invoke : String → Io (Unit {0}))
      (publishing : (pid : String) → Publishes (invoke pid)) where
    pub productive :
        (set_up : Io (Unit {0})) (clean_up : Io (Unit {0}))
        → IsQuiet set_up
        → IsProductive (record {
          set_up = set_up;
          invoke = timed env (invoke_each env delay invoke);
          clean_up = clean_up;
        })
    unfolding timed invoke_each ◌>>=◌ get_target_pids IsQuiet
    productive set_up clean_up silent = record {
      set_up_quiet = silent;
      invoke_publishes =
          λ w. profile_serially_publishes env.text delay invoke publishing w.target_pids w;
      invoke_fails = λ w. profile_serially_fails env.text delay invoke publishing w.target_pids w;
    }

  -- A profiler whose invocation is one action that publishes.
  alone-IsProductive :
      (set_up invoke clean_up : Io (Unit {0}))
      → IsQuiet set_up
      → Publishes invoke
      → IsProductive (record { set_up = set_up; invoke = timed env invoke; clean_up = clean_up })
  unfolding timed IsQuiet Publishes
  alone-IsProductive set_up invoke clean_up silent publishing = record {
    set_up_quiet = silent;
    invoke_publishes = λ w h. ground (arith, publishing w);
    invoke_fails = λ w e h. ground (arith, publishing w);
  }

  pub async_link-IsQuiet :
      (job : ProfilingJob) (target_fs : String) → IsQuiet (Async.link_tmp_dir env job target_fs)
  unfolding Async.link_tmp_dir
  async_link-IsQuiet job target_fs = search quiet depth 40 fits 4000

  async_copy-IsQuiet : IsQuiet (Async.copy_profiler_to_tmp_dir env)
  unfolding Async.copy_profiler_to_tmp_dir
  async_copy-IsQuiet = search quiet depth 40 fits 4000

  async_library-IsQuiet :
      (target_fs : String) → IsQuiet (Async.select_profiler_library env target_fs)
  unfolding Async.select_profiler_library Async.copy_musl_library
  async_library-IsQuiet target_fs = search quiet depth 40 fits 4000

  async_set_up-IsQuiet : IsQuiet (Async.set_up env)
  unfolding Async.set_up
  async_set_up-IsQuiet =
      search
        (
          quiet, async_link-IsQuiet, set_up_targets-IsQuiet, async_copy-IsQuiet,
          async_library-IsQuiet,
        )
        depth 40 fits 4000

  node_set_up-IsQuiet : IsQuiet (Node.set_up env)
  unfolding Node.set_up
  node_set_up-IsQuiet = search quiet depth 40 fits 4000

  node_invoke-Publishes : Publishes (Node.invoke env)
  unfolding Node.invoke
  node_invoke-Publishes = search (publishes, node-Publishes) depth 40 fits 4000

  -- Each of the profilers for py-spy, rbspy, bpf, perf, async-profiler, Node and the Go profiles
  -- publishes a result in every round that succeeds, and none in a round that fails.
  pub profilers-IsProductive :
      (quoted : String → String)
      → IsProductive (python_profiler env)
        × (IsProductive (ruby_profiler env)
            × (IsProductive (bpf_profiler env)
                × (IsProductive (perf_profiler env)
                    × (IsProductive (Async.async_profiler_profiler env)
                        × (IsProductive (Node.node_dummy_profiler env)
                            × IsProductive (GoPprof.go_pprof_profiler env quoted))))))
  unfolding python_profiler ruby_profiler bpf_profiler perf_profiler Async.async_profiler_profiler
      Async.clean_up Node.node_dummy_profiler GoPprof.go_pprof_profiler
  profilers-IsProductive quoted =
      let silent = set_up_targets-IsQuiet in
      (
        productive _ _ (python-Publishes env) _ _ silent,
        (
          productive _ _ (ruby-Publishes env) _ _ silent,
          (
            productive _ _ (bpf-Publishes env) _ _ silent,
            (
              productive _ _ (perf-Publishes env) _ _ silent,
              (
                productive _ _ (async-Publishes env) _ _ async_set_up-IsQuiet,
                (
                  alone-IsProductive _ _ _ node_set_up-IsQuiet node_invoke-Publishes,
                  productive _ _ (go_pprof-Publishes env quoted) _ _ silent,
                ),
              ),
            ),
          ),
        ),
      )
