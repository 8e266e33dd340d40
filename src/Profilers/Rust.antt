-- ===== src/Profilers/Rust.antt =====
-- The flame graphs of a program in Rust, which bpf.go and perf.go make samples for.
use application_profiler.Base.{
  ◌≡◌, ◌≢◌, refl, sym, ap, ◌∙◌, Result, ok, Error, Option, none, some, String, inl, inr,
  Result-cases, arith, ◌==◌, true, false, Bool, ℕ, not, ltb,
}
use application_profiler.Api.Langs.{rust}
use application_profiler.Api.Outputs.{flame_graph, raw}
use application_profiler.Job.{ProfilingJob}
use application_profiler.External.{External}
use application_profiler.World.{World, Files, Command}
use application_profiler.Os.{Os}
use application_profiler.FileSystem.Lookup.{eq_refl}
use application_profiler.Io.{
  Io, ◌>>=◌, pure, fail, fail_if, wrapped, run, run_with, get_job, get_files, change_files, require,
}
use application_profiler.Flamegraph.Grapher.{
  fake_with_error, get_grapher, grapher_of, stack_samples_to_flame_graph,
}
use application_profiler.Profilers.Env.{Env}
use application_profiler.Profilers.Flames.{flames_if, convert, minimum_raw_size}
use application_profiler.Profilers.Targets.{file_of}
use application_profiler.Profilers.Bpf
use application_profiler.Profilers.Bpf.{bcc_profiler_command}

-- The action does not change the job.
unfoldable KeepsJob : {A : Type 0} → Io A → Type 0
KeepsJob m = (w : World) → (m w).1.job ≡ w.job

-- Started with that job, the action does not succeed.
unfoldable FailsOn : ProfilingJob → Io (Unit {0}) → Type 0
FailsOn j m = (w : World) → w.job ≡ j → (m w).0 ≢ ok tt

module _ {A : Type 0} (j : ProfilingJob) (m : Io A) (f : A → Io (Unit {0})) where
  >>=-FailsOn : KeepsJob m → ((a : A) → FailsOn j (f a)) → FailsOn j (m >>= f)
  unfolding KeepsJob FailsOn ◌>>=◌
  >>=-FailsOn kept fails w same h = elim (Result-cases (m w).0) [
    | inl (a, e) ↦ fails a (m w).1 (kept w ∙ same) (ground arith)
    | inr (inl (x, e)) ↦ ground arith
    | inr (inr e) ↦ ground arith
  ]

  >>=-FailsOn_after :
      (a : A) → ((w : World) → w.job ≡ j → m w ≡ (ok a, w)) → FailsOn j (f a) → FailsOn j (m >>= f)
  unfolding FailsOn ◌>>=◌
  >>=-FailsOn_after a returns fails w same h =
      let value = ap (λ (v : Result A × World). v.0) (returns w same) in
      let after = ap (λ (v : Result A × World). v.1) (returns w same) in
      let on : (m >>= f) w ≡ f a w = ground arith in
      fails w same (sym (ap (λ (v : Result (Unit {0}) × World). v.0) on) ∙ h)

module _ (j : ProfilingJob) (m : Io (Unit {0})) where
  >>=-FailsOn_left : (f : Unit {0} → Io (Unit {0})) → FailsOn j m → FailsOn j (m >>= f)
  unfolding FailsOn ◌>>=◌
  >>=-FailsOn_left f fails w same h = elim (Result-cases (m w).0) [
    | inl (a, e) ↦ fails w same e
    | inr (inl (x, e)) ↦ ground arith
    | inr (inr e) ↦ ground arith
  ]

  wrapped-FailsOn : (t : String) → FailsOn j m → FailsOn j (wrapped t m)
  unfolding FailsOn wrapped
  wrapped-FailsOn t fails w same h = elim (Result-cases (m w).0) [
    | inl (a, e) ↦ fails w same e
    | inr (inl (x, e)) ↦ ground arith
    | inr (inr e) ↦ ground arith
  ]

fail-FailsOn : (j : ProfilingJob) (e : Error) → FailsOn j (fail e)
unfolding FailsOn fail
fail-FailsOn j e w same h = cc

run-KeepsJob : (os : Os) (c : Command) → KeepsJob (run os c)
unfolding KeepsJob run run_with
run-KeepsJob os c w = refl

fail_if-KeepsJob : (f : Error → Error) (o : Option Error) → KeepsJob (fail_if f o)
unfolding KeepsJob fail_if pure fail
fail_if-KeepsJob f none w = refl
fail_if-KeepsJob f (some e) w = refl

change_files-KeepsJob : (f : Files → Files) → KeepsJob (change_files f)
unfolding KeepsJob change_files
change_files-KeepsJob f w = refl

get_files-KeepsJob : KeepsJob get_files
unfolding KeepsJob get_files
get_files-KeepsJob w = refl

grapher_of-rust : (x : External) → grapher_of x rust "" ≡ fake_with_error
unfolding grapher_of
grapher_of-rust x = refl

module _ (x : External) (j : ProfilingJob) (in_rust : j.language ≡ rust) where
  get_grapher_rust : (w : World) → w.job ≡ j → get_grapher x w ≡ (ok fake_with_error, w)
  unfolding get_grapher ◌>>=◌ get_job pure
  get_grapher_rust w same =
      let l = ap (λ (k : ProfilingJob). k.language) same ∙ in_rust in rw (l, grapher_of-rust x) refl

module _ (env : Env) (j : ProfilingJob) (in_rust : j.language ≡ rust)
    (flames : j.output_type ≡ flame_graph) where
  require-KeepsJob : (b : Bool) (e : Error) → KeepsJob (require b e)
  unfolding KeepsJob pure fail
  require-KeepsJob true e w = refl
  require-KeepsJob false e w = refl

  convert-FailsOn :
      (enough : ℕ → Bool) (a b : String) → FailsOn j (convert env enough fake_with_error a b)
  unfolding convert stack_samples_to_flame_graph
  convert-FailsOn enough a b = >>=-FailsOn j _ _ get_files-KeepsJob (λ fs.
      >>=-FailsOn j _ _ (require-KeepsJob _ _) (λ _. wrapped-FailsOn j _ _ (fail-FailsOn j _)))

  flames_if-FailsOn :
      (enough : ℕ → Bool) (a b : String) → FailsOn j (flames_if env enough j fake_with_error a b)
  unfolding flames_if
  flames_if-FailsOn enough a b =
      let t : (j.output_type == flame_graph) ≡ true = rw flames (eq_refl flame_graph) in
      rw t (convert-FailsOn enough a b)

  get_job-eq : (w : World) → w.job ≡ j → get_job w ≡ (ok j, w)
  unfolding get_job
  get_job-eq w same = ap (λ (k : ProfilingJob). (ok k, w)) same

  -- Whatever the tools do, `bpf` makes no flame graph for a job in Rust: no invocation succeeds.
  pub bpf_rust-ne-ok : (pid : String) (w : World) → w.job ≡ j → (Bpf.invoke_pid env pid w).0 ≢ ok tt
  unfolding Bpf.invoke_pid Bpf.handle_flamegraph FailsOn
  bpf_rust-ne-ok pid = >>=-FailsOn_after j get_job _ j get_job-eq (
      >>=-FailsOn j _ _ (run-KeepsJob env.os (bcc_profiler_command j pid)) (λ out.
        >>=-FailsOn j _ _ (fail_if-KeepsJob _ _) (λ _.
          >>=-FailsOn j _ _ (change_files-KeepsJob _) (λ _.
            >>=-FailsOn_after j _ _ fake_with_error (get_grapher_rust env.packages j in_rust) (
              >>=-FailsOn_left j _ _ (
                wrapped-FailsOn j _ _ (
                  flames_if-FailsOn (λ n. not (ltb n minimum_raw_size)) (file_of env j raw pid)
                    (file_of env j j.output_type pid))))))))
