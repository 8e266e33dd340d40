-- ===== src/Tests/ContainerTests.antt =====
-- A container whose first process has two children.
use application_profiler.Base.{
  ◌≡◌, refl, arith, List, [], ◌∷◌, none, some, ok, String, true, false, ◌==◌, if◌then◌else◌, Bool,
  ◌&&◌,
}
use application_profiler.Base.Text.{join, trim_space}
use application_profiler.Job.{ProfilingJob}
use application_profiler.Container.Runtime.{Containers, get_root_pid, runtime}
use application_profiler.Container.Children.{Commander, Output, get_child, fill_with_children_pids}
use application_profiler.Container.Candidates.{get_candidate_pids, several_notice}
use application_profiler.Container.Leaves.{
  ProcessTree, proc, nil, cons, leaves, size, Describes, fill_with_children_pids-leaves,
}
use application_profiler.Container.Selection.{
  matching, get_candidate_pids-leaves, get_candidate_pids-matching,
}
use application_profiler.Tests.ActionTests.{job}
use application_profiler.Base.{◌↔◌, ◌⊎◌, inl, errorf, lookup}
use application_profiler.World.{Files}
use application_profiler.Container.Spec.{Json}
use application_profiler.Container.Containerd.{pid_file, pid_container_id_file}
use application_profiler.Container.Runtimes.{containers_of, get_root_pid_of_task}
use application_profiler.Tests.Fixtures.{packages, packages-IsLawful, machine}

abbrev tree : ProcessTree
tree = proc "7" (cons (proc "8" nil) (cons (proc "9" nil) nil))

abbrev output : String → Output
output s = record { stdout = s; stderr = ""; error = none }

is_list : List String → List String → Bool
is_list [] [] = true
is_list [] (b ∷ bs) = false
is_list (a ∷ xs) [] = false
is_list (a ∷ xs) (b ∷ bs) = a == b && is_list xs bs

-- `pgrep` knows the children of 7, and `ps` shows a name for 8.
abbrev shell : Commander
shell c =
    if c.name == "pgrep"
    then if is_list c.args ("-P" ∷ "7" ∷ []) then output "8\n9\n" else output ""
    else if is_list c.args ("8" ∷ [])
    then output "java -jar a.jar"
    else output "sleep"

abbrev containers : Containers
containers = record {
  root_file_system_location = λ c i p. ok "/root";
  pid = λ c i p. ok "7";
  cwd = λ c i p. ok "/cwd";
}

tree-Describes : Describes (get_child packages shell) tree
unfolding Describes get_child join is_list trim_space
tree-Describes = (refl, ((refl, refl), (refl, tt), ((refl, refl), (refl, tt), tt)))

fill_with_children_pids-leaves_example :
    fill_with_children_pids packages (get_child packages shell) 3 "7" ≡ some ("8" ∷ "9" ∷ [])
unfolding leaves size
fill_with_children_pids-leaves_example =
    fill_with_children_pids-leaves packages (get_child packages shell) tree 3 packages-IsLawful
      tree-Describes (omega arith)

get_candidate_pids-leaves_example :
    get_candidate_pids packages containers shell 3 job
    ≡ some (ok (leaves tree), several_notice (leaves tree))
unfolding get_root_pid runtime size
get_candidate_pids-leaves_example =
    get_candidate_pids-leaves packages containers shell tree 3 packages-IsLawful tree-Describes
      (omega arith) job refl refl

abbrev grep_job : ProfilingJob
grep_job = record job { pgrep = "java" }

get_candidate_pids-matching_example :
    get_candidate_pids packages containers shell 3 grep_job
    ≡ some (
      ok (matching packages shell "java" (leaves tree)),
      several_notice (matching packages shell "java" (leaves tree)),
    )
unfolding get_root_pid runtime leaves size is_list
get_candidate_pids-matching_example =
    get_candidate_pids-matching packages containers shell tree 3 packages-IsLawful tree-Describes
      (omega arith) grep_job refl refl (refl, (refl, tt))

-- A container of containerd that has only the file named after it.
abbrev runtime_files : Files
runtime_files = ("/run/containerd/io.containerd.runtime.v2.task/k8s.io/abc/abc.pid", "4711") ∷ []

-- No JSON file is read.
abbrev no_json : Json
no_json = record {
  unmarshal_spec = λ s. inl (errorf "unexpected end of JSON input");
  unmarshal_pid = λ s. inl (errorf "unexpected end of JSON input");
}

get_root_pid_of_task_example :
    (get_root_pid (containers_of packages machine no_json runtime_files) job ≡ ok "4711") ↔ (
      (lookup (pid_file "abc" "/run/containerd") runtime_files ≡ some "4711")
      ⊎ ((lookup (pid_file "abc" "/run/containerd") runtime_files ≡ none)
          × (lookup (pid_container_id_file "abc" "/run/containerd") runtime_files ≡ some "4711")))
get_root_pid_of_task_example =
    get_root_pid_of_task packages machine no_json runtime_files job "4711" packages-IsLawful refl
      refl refl (λ f. refl)
