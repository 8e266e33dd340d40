-- ===== src/Action/Run.antt =====
-- `Run` of internal/agent/action/profile/profile.go, over any profiler.
use application_profiler.Base.{
  ℕ, zero, suc, ◌+◌, Bool, ◌&&◌, if◌then◌else◌, Result, ok, err, panic, ltb,
}
use application_profiler.Base.Int.{ℤ, pos_part, quot_ℤ, scale_ℤ, ◌-ℤ◌}
use application_profiler.World.{World, act, emit, sleep, progress, started, ended}

-- The interface `Profiler` of internal/agent/profiler/factory.go. A method reads the job from the
-- world; `invoke` also returns how long it took.
pub record Profiler : Type 0 where
  pub set_up : World → Result (Unit {0}) × World
  pub invoke : World → Result (Unit {0}) × ℤ × World
  pub clean_up : World → Result (Unit {0}) × World

-- The two places where `Run` computes with `float64`: the number of iterations
-- `int64(Duration.Seconds() / Interval.Seconds())`, and the test `d.Seconds() < Interval.Seconds()`.
pub record Seconds : Type 0 where
  pub quotient : ℤ → ℤ → ℤ
  pub shorter : ℤ → ℤ → Bool

-- The wait at the end of a round, in nanoseconds.
unfoldable pub rest_of_interval : ℤ → ℤ → ℤ
rest_of_interval interval d = scale_ℤ 1_000_000 (quot_ℤ interval 1_000_000 -ℤ quot_ℤ d 1_000_000)

-- `job.Iteration = int(i) + 1`
abbrev pub set_iteration : ℕ → World → World
set_iteration i w = record w { job = record w.job { iteration = i + 1 } }

module _ (secs : Seconds) (p : Profiler) where
  unfoldable pub pause : ℕ → ℤ → World → World
  unfolding rest_of_interval
  pause iterations d w =
      if ltb 1 iterations && secs.shorter d w.job.interval
      then act (sleep (rest_of_interval w.job.interval d)) w
      else w

  -- The loop, with the rounds that are left and the index of the next one.
  unfoldable pub rounds : ℕ → ℕ → ℕ → World → Result (Unit {0}) × World
  unfolding pause
  rounds iterations zero i w = (ok tt, w)
  rounds iterations (suc left) i w =
      let (r, d, w₁) = p.invoke (set_iteration i w) in
      elim r [
        | ok _ ↦ rounds iterations left (i + 1) (pause iterations d w₁)
        | err e ↦ (err e, w₁)
        | panic ↦ (panic, w₁)
      ]

  -- A quotient that is not positive gives no round.
  unfoldable pub iterations_of : World → ℕ
  iterations_of w = pos_part (secs.quotient w.job.duration w.job.interval)

  unfoldable pub run : World → Result (Unit {0}) × World
  unfolding rounds iterations_of
  run w =
      let (r, w₁) = p.set_up (emit (progress started) w) in
      elim r [
        | ok _ ↦
            let iterations = iterations_of w₁ in
            let (s, w₂) = rounds iterations iterations 0 w₁ in
            elim s [
              | ok _ ↦ (ok tt, emit (progress ended) w₂)
              | err e ↦ (err e, w₂)
              | panic ↦ (panic, w₂)
            ]
        | err e ↦ (err e, w₁)
        | panic ↦ (panic, w₁)
      ]
