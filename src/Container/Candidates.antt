-- ===== src/Container/Candidates.antt =====
-- `GetCandidatePIDs` of container.go.
use application_profiler.Base.{
  ℕ, Result, ok, err, panic, errorf, Option, none, some, List, [], ◌∷◌, String, ◌<>◌, if◌then◌else◌,
  ltb, eqb, length,
}
use application_profiler.Base.Text.{show_list}
use application_profiler.External.{External}
use application_profiler.Job.{ProfilingJob}
use application_profiler.World.{Event, notice}
use application_profiler.Container.Runtime.{Containers, get_root_pid}
use application_profiler.Container.Children.{
  Commander, get_child, fill_with_children_pids, filter_pids_to_profile,
}

-- The notice that is logged if there are several processes.
abbrev pub several_notice : List String → List Event
several_notice pids =
    if ltb 1 (length pids)
    then notice (
        "Detected more than one PID to profile: "
        <> (show_list pids
            <> (". "
                <> ("It will be attempt to profile all of them. "
                    <> "Use the --pid flag specifying the corresponding PID if you only want to profile one of them."))))
      ∷ []
    else []

module _ (x : External) (cs : Containers) (run : Commander) (fuel : ℕ) where
  -- The steps after the leaves of the process tree are known.
  unfoldable pub select_pids : ProfilingJob → List String → Result (List String)
  select_pids job pids =
      if eqb (length pids) 0
      then err (errorf ("no PIDs found for container ID: " <> job.container_id))
      else filter_pids_to_profile x run pids job.pgrep

  -- `none` means that the process tree is deeper than the fuel. The first lines are those of
  -- `GetRootPID`.
  unfoldable pub get_candidate_pids : ProfilingJob → Option (Result (List String) × List Event)
  unfolding select_pids
  get_candidate_pids job = elim (get_root_pid cs job) [
    | err e ↦ some (err e, [])
    | panic ↦ some (panic, [])
    | ok pid ↦ elim (fill_with_children_pids x (get_child x run) fuel pid) [
      | none ↦ none
      | some leaves ↦ elim (select_pids job leaves) [
        | err e ↦ some (err e, [])
        | panic ↦ some (panic, [])
        | ok pids ↦ some (ok pids, several_notice pids)
      ]
    ]
  ]
