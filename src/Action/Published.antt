-- ===== src/Action/Published.antt =====
-- How many results `Run` of internal/agent/action/profile/profile.go publishes.
use application_profiler.Base.{
  ℕ, zero, suc, ◌+◌, ◌≡◌, ◌<◌, ◌≤◌, Error, ok, err, [], ◌∷◌, arith, inl, inr, Result-cases,
}
use application_profiler.Base.Int.{ℤ}
use application_profiler.World.{World, emit, sleep, event, progress, started, ended}
use application_profiler.Io.Results.{result_events, result_events-append}
use application_profiler.Action.Run.{
  Profiler, Seconds, pause, rest_of_interval, set_iteration, rounds, iterations_of, run,
}

-- A profiler that publishes a result in each round that succeeds, and none in a round that fails.
pub record IsProductive (p : Profiler) : Type 0 where
  pub set_up_quiet : (w : World) → result_events (p.set_up w).1.acts ≡ result_events w.acts
  pub invoke_publishes :
      (w : World)
      → (p.invoke w).0 ≡ ok tt
      → result_events w.acts < result_events (p.invoke w).2.acts
  pub invoke_fails :
      (w : World) (e : Error)
      → (p.invoke w).0 ≡ err e
      → result_events (p.invoke w).2.acts ≡ result_events w.acts

module _ (secs : Seconds) (p : Profiler) (productive : IsProductive p) where
  pause_publishes_none :
      (n : ℕ) (d : ℤ) (w : World) → result_events (pause secs p n d w).acts ≡ result_events w.acts
  unfolding pause
  pause_publishes_none n d w =
      ground (arith, result_events-append w.acts (sleep (rest_of_interval w.job.interval d) ∷ []))

  rounds_publish :
      (n left i : ℕ) (w : World)
      → (rounds secs p n left i w).0 ≡ ok tt
      → result_events w.acts + left ≤ result_events (rounds secs p n left i w).1.acts
  unfolding rounds
  rounds_publish n zero i w h = omega arith
  rounds_publish n (suc left) i w h =
      let v = p.invoke (set_iteration i w) in
      elim (Result-cases v.0) [
        | inl (_, e) ↦ ground (
          arith,
          productive.invoke_publishes (set_iteration i w) e,
          pause_publishes_none n v.1 v.2,
          rounds_publish n left (i + 1) (pause secs p n v.1 v.2),
        )
        | inr (inl (x, e)) ↦ absurd (ground arith)
        | inr (inr e) ↦ absurd (ground arith)
      ]

  -- If every round of the profiler that succeeds publishes a result, then a run that succeeds has
  -- published at least as many results as it has iterations.
  pub run_publishes :
      (w : World)
      → (run secs p w).0 ≡ ok tt
      → result_events w.acts + iterations_of secs p (p.set_up (emit (progress started) w)).1
        ≤ result_events (run secs p w).1.acts
  unfolding run
  run_publishes w h =
      let v = p.set_up (emit (progress started) w) in
      let n = iterations_of secs p v.1 in
      let u = rounds secs p n n 0 v.1 in
      ground (
        arith,
        rounds_publish n n 0 v.1,
        productive.set_up_quiet (emit (progress started) w),
        result_events-append w.acts (event (progress started) ∷ []),
        result_events-append u.1.acts (event (progress ended) ∷ []),
      )
