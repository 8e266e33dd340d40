-- ===== src/Profilers/Flames.antt =====
-- `handleFlamegraph`, which the profilers have each a copy of.
use application_profiler.Base.{ℕ, Bool, Error, errorf, String, ◌==◌, if◌then◌else◌}
use application_profiler.Api.Outputs.{flame_graph}
use application_profiler.Job.{ProfilingJob}
use application_profiler.FileSystem.{size}
use application_profiler.Io.{Io, pure, ◌>>=◌, ◌>>◌, require, wrapped, get_files}
use application_profiler.Flamegraph.Grapher.{FrameGrapher, stack_samples_to_flame_graph}
use application_profiler.Profilers.Env.{Env}

abbrev pub no_stacks : Error
no_stacks = errorf "unable to generate flamegraph: no stacks found (maybe due low cpu load)"

-- `common.MinimumRawSize`
abbrev pub minimum_raw_size : ℕ
minimum_raw_size = 50

module _ (env : Env) where
  -- The samples are turned into a flame graph if their file is large enough.
  unfoldable pub convert : (ℕ → Bool) → FrameGrapher → String → String → Io (Unit {0})
  unfolding stack_samples_to_flame_graph size
  convert enough grapher raw_file flame_file = do
    fs ← get_files
    require (enough (size raw_file fs)) no_stacks
    wrapped "could not convert raw format to flamegraph"
        (stack_samples_to_flame_graph env.packages env.os grapher raw_file flame_file)

  unfoldable pub flames_if :
      (ℕ → Bool) → ProfilingJob → FrameGrapher → String → String → Io (Unit {0})
  unfolding convert
  flames_if enough job grapher raw_file flame_file =
      if job.output_type == flame_graph then convert enough grapher raw_file flame_file else pure tt
