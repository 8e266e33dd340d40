-- ===== src/Profilers/Env.antt =====
-- What the profilers call, and what they have in common.
use application_profiler.Base.{ℕ, Result, Error, String}
use application_profiler.Base.Int.{ℤ, quot_ℤ}
use application_profiler.Base.Digits.{itoa_ℤ}
use application_profiler.External.{External}
use application_profiler.Compressor.{Compressor}
use application_profiler.Job.{ProfilingJob}
use application_profiler.World.{World}
use application_profiler.Os.{Os}
use application_profiler.Container.Runtime.{Containers}
use application_profiler.Container.Children.{Commander}
use application_profiler.Io.{Io}

-- `encode` are the methods `Encode`; `containers` are the container runtimes; `commander` runs the
-- commands that look for processes, with fuel for the process tree; `clock` is the time between two
-- states; `text` is the text of an error.
pub record Env : Type 0 where
  pub packages : External
  pub os : Os
  pub encode : Compressor → String → Result String
  pub containers : Containers
  pub commander : Commander
  pub fuel : ℕ
  pub clock : World → World → ℤ
  pub text : Error → String

-- `strconv.Itoa(int(job.Interval.Seconds()))`, which truncates. Go divides by `float64`, with the
-- same result for intervals below 48 days.
unfoldable pub interval_text : ProfilingJob → String
unfolding itoa_ℤ quot_ℤ
interval_text job = itoa_ℤ (quot_ℤ job.interval 1_000_000_000)

-- A call with how long it took.
unfoldable pub timed : Env → Io (Unit {0}) → World → Result (Unit {0}) × ℤ × World
timed env m w = let v = m w in (v.0, env.clock w v.1, v.1)
