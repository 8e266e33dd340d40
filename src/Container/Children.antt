-- ===== src/Container/Children.antt =====
-- The walk over the process tree in container.go, and the filter by `ps`.
use application_profiler.Base.{
  ℕ, zero, suc, true, false, Result, ok, err, panic, wrap, Error, Option, none, some, List, [], ◌∷◌,
  ◌++◌, String, ◌<>◌, if◌then◌else◌, ltb, length,
}
use application_profiler.Base.Text.{split, trim_space}
use application_profiler.External.{External}
use application_profiler.World.{Command}

-- What a finished command leaves.
pub record Output : Type 0 where
  pub stdout : String
  pub stderr : String
  pub error : Option Error

-- Running a command that only reads.
abbrev pub Commander : Type 0
Commander = Command → Output

abbrev pub ps_command : String
ps_command = "/app/get-ps-command.sh"

-- The calls for the children, one after the other.
unfoldable pub each : (String → Option (List String)) → List String → Option (List String)
each f [] = some []
each f (p ∷ ps) = elim (f p) [
  | none ↦ none
  | some pids ↦ elim (each f ps) [ none ↦ none | some rest ↦ some (pids ++ rest) ]
]

module _ (x : External) where
  -- `childPIDGetter.get`
  unfoldable pub get_child : Commander → String → String
  unfolding trim_space
  get_child run pid =
      let out = run (record { name = "pgrep"; args = "-P" ∷ pid ∷ [] }) in
      let output = trim_space out.stdout in
      elim out.error [ none ↦ if x.is_not_blank output then output else "" | some e ↦ "" ]

  -- `fillWithChildrenPIDs`: what it appends to the slice. Its depth is bounded by the fuel; `none`
  -- means that the fuel ran out.
  unfoldable pub fill_with_children_pids : (String → String) → ℕ → String → Option (List String)
  unfolding each split
  fill_with_children_pids get zero pid = none
  fill_with_children_pids get (suc fuel) pid = elim (x.is_not_blank (get pid)) [
    | true ↦ elim (ltb 1 (length (split (get pid) b'\n'))) [
      | true ↦ each (fill_with_children_pids get fuel) (split (get pid) b'\n')
      | false ↦ fill_with_children_pids get fuel (get pid)
    ]
    | false ↦ some (pid ∷ [])
  ]

  -- The loop of `filterPIDsToProfile`. The buffer of the standard error is never reset, so an error
  -- shows what earlier commands wrote to it too.
  unfoldable pub filter_loop : Commander → String → String → List String → Result (List String)
  unfolding trim_space
  filter_loop run pgrep stderr [] = ok []
  filter_loop run pgrep stderr (pid ∷ pids) =
      let out = run (record { name = ps_command; args = pid ∷ [] }) in
      let written = stderr <> out.stderr in
      elim out.error [
        | some e ↦ err (wrap ("ps command failed with error: " <> written) e)
        | none ↦ elim (filter_loop run pgrep written pids) [
          | ok rest ↦
              ok (if x.contains_ignore_case (trim_space out.stdout) pgrep then pid ∷ rest else rest)
          | err e ↦ err e
          | panic ↦ panic
        ]
      ]

  unfoldable pub filter_pids_to_profile : Commander → List String → String → Result (List String)
  unfolding filter_loop
  filter_pids_to_profile run pids pgrep =
      if x.is_blank pgrep then ok pids else filter_loop run pgrep "" pids

  unfoldable pub get_first_candidate_pid : (String → String) → String → String
  unfolding split trim_space
  get_first_candidate_pid get root_pid =
      if x.is_blank (get root_pid) then root_pid else elim (split (get root_pid) b'\n') [
        | [] ↦ root_pid
        | p ∷ ps ↦ elim ps [ [] ↦ trim_space p | q ∷ qs ↦ root_pid ]
      ]
