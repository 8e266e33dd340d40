-- ===== src/Container/Selection.antt =====
-- What `GetCandidatePIDs` of internal/agent/util/container.go selects.
use application_profiler.Base.{
  ℕ, ◌≡◌, ◌≢◌, refl, ◌≤◌, ◌<◌, length-append, true, false, List, [], ◌∷◌, none, some, ok, String,
  arith, length, if◌then◌else◌, ◌<>◌,
}
use application_profiler.Base.Text.{trim_space}
use application_profiler.External.{External, IsLawful}
use application_profiler.Job.{ProfilingJob}
use application_profiler.Container.Runtime.{Containers, get_root_pid}
use application_profiler.Container.Children.{
  Commander, ps_command, get_child, filter_loop, filter_pids_to_profile, fill_with_children_pids,
}
use application_profiler.Container.Candidates.{several_notice, get_candidate_pids}
use application_profiler.Container.Leaves.{
  ProcessTree, proc, nil, cons, Forest, root, leaves, leaves_of, size, Describes,
  fill_with_children_pids-leaves,
}

mutual
  unfolding leaves

  length-leaves_pos : (t : ProcessTree) → 0 < length (leaves t)
  length-leaves_pos (proc p nil) = omega arith
  length-leaves_pos (proc p (cons t ts)) = length-leaves_of_pos (cons t ts) (λ e. cc e)

  length-leaves_of_pos : (ts : Forest) → ts ≢ nil → 0 < length (leaves_of ts)
  length-leaves_of_pos nil h = absurd (h refl)
  length-leaves_of_pos (cons t ts) h =
      omega (arith, length-append (leaves t) (leaves_of ts), length-leaves_pos t)

-- The processes whose line in `ps` shows the name that is looked for.
abbrev pub matching : External → Commander → String → List String → List String
matching x run pgrep [] = []
matching x run pgrep (pid ∷ pids) =
    let rest = matching x run pgrep pids in
    if x.contains_ignore_case
      (trim_space (run (record { name = ps_command; args = pid ∷ [] })).stdout) pgrep
    then pid ∷ rest
    else rest

-- `ps` works for every process of the list.
abbrev pub AllListed : Commander → List String → Type 0
AllListed run [] = Unit
AllListed run (pid ∷ pids) =
    ((run (record { name = ps_command; args = pid ∷ [] })).error ≡ none) × AllListed run pids

filter_loop-matching :
    (x : External) (run : Commander) (pgrep stderr : String) (pids : List String)
    → AllListed run pids
    → filter_loop x run pgrep stderr pids ≡ ok (matching x run pgrep pids)
unfolding filter_loop
filter_loop-matching x run pgrep stderr [] h = refl
filter_loop-matching x run pgrep stderr (pid ∷ pids) h = ground (
  arith,
  filter_loop-matching x run pgrep
      (stderr <> (run (record { name = ps_command; args = pid ∷ [] })).stderr) pids h.1,
)

module _ (x : External) (cs : Containers) (run : Commander) (t : ProcessTree) (fuel : ℕ)
    (lawful : IsLawful x) (described : Describes (get_child x run) t) (deep : size t ≤ fuel) where
  leaves_found : fill_with_children_pids x (get_child x run) fuel (root t) ≡ some (leaves t)
  leaves_found = fill_with_children_pids-leaves x (get_child x run) t fuel lawful described deep

  -- With no name to look for, every leaf of the container's process tree is a candidate, and a
  -- notice is logged if there are several.
  pub get_candidate_pids-leaves :
      (job : ProfilingJob)
      → get_root_pid cs job ≡ ok (root t)
      → x.is_blank job.pgrep ≡ true
      → get_candidate_pids x cs run fuel job ≡ some (ok (leaves t), several_notice (leaves t))
  unfolding get_candidate_pids filter_pids_to_profile
  get_candidate_pids-leaves job found blank = ground (arith, leaves_found, length-leaves_pos t)

  -- With a name to look for, and if ps finds the process of every leaf, the candidates are the leaves
  -- that show the name; there may be none.
  pub get_candidate_pids-matching :
      (job : ProfilingJob)
      → get_root_pid cs job ≡ ok (root t)
      → x.is_blank job.pgrep ≡ false
      → AllListed run (leaves t)
      → get_candidate_pids x cs run fuel job
        ≡ some (
          ok (matching x run job.pgrep (leaves t)),
          several_notice (matching x run job.pgrep (leaves t)),
        )
  unfolding get_candidate_pids filter_pids_to_profile
  get_candidate_pids-matching job found given listed = ground (
    arith,
    leaves_found,
    length-leaves_pos t,
    filter_loop-matching x run job.pgrep "" (leaves t) listed,
  )
