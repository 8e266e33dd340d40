-- ===== src/Profilers/Factory.antt =====
-- internal/agent/profiler/factory.go, and the profiler of profiler_fake.go that it returns for other
-- tools.
use application_profiler.Base.{
  ◌≡◌, refl, Bool, true, false, errorf, String, ◌==◌, if◌then◌else◌, elem, arith,
}
use application_profiler.Base.Int.{ℤ}
use application_profiler.Api.Tools.{
  ProfilingTool, jcmd, async_profiler, bpf, pyspy, perf, rbspy, austin, pprof_tool, node_dummy,
  profiling_tools,
}
use application_profiler.Io.{Io, pure, fail, ◌>>=◌, get_job}
use application_profiler.Action.Run.{Profiler}
use application_profiler.Action.Published.{IsProductive}
use application_profiler.Profilers.Env.{Env, timed}
use application_profiler.Profilers.Python.{python_profiler}
use application_profiler.Profilers.Ruby.{ruby_profiler}
use application_profiler.Profilers.Bpf.{bpf_profiler}
use application_profiler.Profilers.Perf.{perf_profiler}
use application_profiler.Profilers.Async.{async_profiler_profiler}
use application_profiler.Profilers.Node.{node_dummy_profiler}
use application_profiler.Profilers.GoPprof.{go_pprof_profiler}
use application_profiler.Profilers.Jcmd.{jcmd_profiler}
use application_profiler.Profilers.Jcmd.Published.{jcmd_profiler-IsProductive}
use application_profiler.Profilers.Austin.Targets.{Proc}
use application_profiler.Profilers.Austin.Invoke.{austin_python_profiler}
use application_profiler.Profilers.Austin.Published.{austin_python_profiler-IsProductive}
use application_profiler.Profilers.Productive.{profilers-IsProductive}

-- What the profilers call, with the parameters of single ones: the verb `%q`, the entries of /proc,
-- the shell script that runs austin, and the text of a duration.
pub record Tools : Type 0 where
  pub env : Env
  pub quoted : String → String
  pub proc : Proc
  pub script : String
  pub duration_text : ℤ → String

-- `DefaultMockProfiler`, without its counters and what it prints.
abbrev mock_set_up : Io (Unit {0})
mock_set_up = get_job >>= λ job.
    if job.container_id == "WithSetupError" then fail (errorf "fake SetUp with error") else pure tt

abbrev mock_invoke : Io (Unit {0})
mock_invoke = get_job >>= λ job.
    if job.container_id == "WithInvokeError"
    then fail (errorf "fake Invoke with error")
    else pure tt

unfoldable pub mock_profiler : Env → Profiler
unfolding timed
mock_profiler env = record {
  set_up = mock_set_up;
  invoke = timed env mock_invoke;
  clean_up = pure tt;
}

-- `Get`
unfoldable pub get : Tools → ProfilingTool → Profiler
unfolding jcmd_profiler async_profiler_profiler bpf_profiler python_profiler perf_profiler
    ruby_profiler austin_python_profiler go_pprof_profiler node_dummy_profiler mock_profiler
get t tool =
    if tool == jcmd
    then jcmd_profiler t.env
    else if tool == async_profiler
    then async_profiler_profiler t.env
    else if tool == bpf
    then bpf_profiler t.env
    else if tool == pyspy
    then python_profiler t.env
    else if tool == perf
    then perf_profiler t.env
    else if tool == rbspy
    then ruby_profiler t.env
    else if tool == austin
    then austin_python_profiler t.env t.proc t.script t.duration_text
    else if tool == pprof_tool
    then go_pprof_profiler t.env t.quoted
    else if tool == node_dummy
    then node_dummy_profiler t.env
    else mock_profiler t.env

if-IsProductive :
    (b : Bool) (p q : Profiler)
    → IsProductive p
    → (b ≡ false → IsProductive q)
    → IsProductive (if b then p else q)
if-IsProductive true p q h k = h
if-IsProductive false p q h k = k refl

-- For every supported tool, the profiler that the factory returns publishes a result in every round
-- that succeeds, and none in a round that fails.
pub get-IsProductive :
    (t : Tools) (tool : ProfilingTool)
    → elem tool profiling_tools ≡ true
    → IsProductive (get t tool)
unfolding get
get-IsProductive t tool h =
    let all = profilers-IsProductive t.env t.quoted in
    if-IsProductive (tool == jcmd) _ _ (jcmd_profiler-IsProductive t.env) (λ e₁.
      if-IsProductive (tool == async_profiler) _ _ all.1.1.1.1.0 (λ e₂.
        if-IsProductive (tool == bpf) _ _ all.1.1.0 (λ e₃.
          if-IsProductive (tool == pyspy) _ _ all.0 (λ e₄.
            if-IsProductive (tool == perf) _ _ all.1.1.1.0 (λ e₅.
              if-IsProductive (tool == rbspy) _ _ all.1.0 (λ e₆.
                if-IsProductive (tool == austin) _ _
                  (austin_python_profiler-IsProductive t.env t.proc t.script t.duration_text)
                  (λ e₇. if-IsProductive (tool == pprof_tool) _ _ all.1.1.1.1.1.1 (λ e₈.
                    if-IsProductive (tool == node_dummy) _ _ all.1.1.1.1.1.0
                      (λ e₉. absurd (ground arith))))))))))

-- What holds of every profiler holds of the one that the factory returns.
module _ {ℓ} (P : Profiler → Type ℓ) where
  either : (b : Bool) (p q : Profiler) → P p → P q → P (if b then p else q)
  either true p q h k = h
  either false p q h k = k

  pub get_cases :
      (t : Tools) (tool : ProfilingTool)
      → P (jcmd_profiler t.env)
      → P (async_profiler_profiler t.env)
      → P (bpf_profiler t.env)
      → P (python_profiler t.env)
      → P (perf_profiler t.env)
      → P (ruby_profiler t.env)
      → P (austin_python_profiler t.env t.proc t.script t.duration_text)
      → P (go_pprof_profiler t.env t.quoted)
      → P (node_dummy_profiler t.env)
      → P (mock_profiler t.env)
      → P (get t tool)
  unfolding get
  get_cases t tool h₁ h₂ h₃ h₄ h₅ h₆ h₇ h₈ h₉ h = either _ _ _ h₁ (
      either _ _ _ h₂ (
        either _ _ _ h₃ (
          either _ _ _ h₄ (
            either _ _ _ h₅
              (either _ _ _ h₆ (either _ _ _ h₇ (either _ _ _ h₈ (either _ _ _ h₉ h))))))))
