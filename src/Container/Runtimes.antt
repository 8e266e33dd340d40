-- ===== src/Container/Runtimes.antt =====
-- The interface `Container` filled by the runtimes, over the files at a time, and what the functions of
-- container.go make of them.
use application_profiler.Base.{
  ◌≡◌, ◌↔◌, ◌⊎◌, refl, true, false, Result, ok, none, some, String, ◌==◌, lookup, arith, inl, inr,
  Option-cases, Bool-cases, eq_iff,
}
use application_profiler.Base.Text.{all_space}
use application_profiler.External.{External, IsLawful}
use application_profiler.World.{Files}
use application_profiler.Os.{Os}
use application_profiler.Job.{ProfilingJob}
use application_profiler.Api.Runtimes.{containerd}
use application_profiler.FileSystem.{read_file}
use application_profiler.Container.Runtime.{
  Container, Containers, crio_container, containerd_container, fake, fake_root_error,
  fake_pid_error, fake_cwd_error, get_root_pid, runtime,
}
use application_profiler.Container.Spec.{Json, fake_root_file_system_location, fake_pid, fake_cwd}
use application_profiler.Container.Crio
use application_profiler.Container.Containerd
use application_profiler.Container.Containerd.{
  pid_file, pid_container_id_file, read_pid, read_either,
}

module _ (x : External) (os : Os) (json : Json) where
  abbrev root_of : Files → Container → String → String → Result String
  root_of fs crio_container i p = Crio.root_file_system_location x os json i p fs
  root_of fs containerd_container i p = Containerd.root_file_system_location x os json i p fs
  root_of fs fake i p = fake_root_file_system_location false i
  root_of fs fake_root_error i p = fake_root_file_system_location true i
  root_of fs fake_pid_error i p = fake_root_file_system_location false i
  root_of fs fake_cwd_error i p = fake_root_file_system_location false i

  abbrev pid_of : Files → Container → String → String → Result String
  pid_of fs crio_container i p = Crio.pid x os json i p fs
  pid_of fs containerd_container i p = Containerd.pid x os json i p fs
  pid_of fs fake i p = fake_pid false i
  pid_of fs fake_root_error i p = fake_pid false i
  pid_of fs fake_pid_error i p = fake_pid true i
  pid_of fs fake_cwd_error i p = fake_pid false i

  abbrev cwd_of : Files → Container → String → String → Result String
  cwd_of fs crio_container i p = Crio.cwd x os json i p fs
  cwd_of fs containerd_container i p = Containerd.cwd x os json i p fs
  cwd_of fs fake i p = fake_cwd false
  cwd_of fs fake_root_error i p = fake_cwd false
  cwd_of fs fake_pid_error i p = fake_cwd false
  cwd_of fs fake_cwd_error i p = fake_cwd true

  unfoldable pub containers_of : Files → Containers
  unfolding Crio.root_file_system_location Crio.pid Crio.cwd Containerd.root_file_system_location
      Containerd.pid Containerd.cwd fake_root_file_system_location fake_pid fake_cwd
  containers_of fs = record {
    root_file_system_location = root_of fs;
    pid = pid_of fs;
    cwd = cwd_of fs;
  }

  -- With files that can be opened, the first of two files is read, or the second if there is no first.
  read_either_iff :
      (fs : Files) (file other c : String)
      → ((f : String) → os.open_error f fs ≡ none)
      → (read_either x os json file other fs ≡ ok c)
        ↔ ((lookup file fs ≡ some c) ⊎ ((lookup file fs ≡ none) × (lookup other fs ≡ some c)))
  unfolding read_either read_pid read_file
  read_either_iff fs file other c opens = elim (Option-cases (lookup file fs)) [
    | inl e ↦ elim (Option-cases (lookup other fs)) [
      | inl q ↦ (λ h. absurd (ground arith), λ h. absurd (ground arith))
      | inr (d, q) ↦ (λ h. inr (e, ground (arith, opens other)), λ h. ground (arith, opens other))
    ]
    | inr (d, e) ↦ (λ h. inl (ground (arith, opens file)), λ h. ground (arith, opens file))
  ]

  blank_name : IsLawful x → (s : String) → x.is_blank s ≡ false → (s == "") ≡ false
  blank_name lawful s h = elim (Bool-cases (s == "")) [
    | inl e ↦
        let blank : all_space s ≡ true = rw ((eq_iff s "").0 e) refl in
        absurd (ground (arith, lawful.blank_lem s))
    | inr e ↦ e
  ]

  get_root_pid_reads :
      (fs : Files) (job : ProfilingJob)
      → IsLawful x
      → job.container_runtime ≡ containerd
      → x.is_blank job.container_id ≡ false
      → x.is_blank job.container_runtime_path ≡ false
      → get_root_pid (containers_of fs) job
        ≡ read_either x os json
            (pid_file job.container_id job.container_runtime_path)
            (pid_container_id_file job.container_id job.container_runtime_path)
            fs
  unfolding get_root_pid runtime containers_of Containerd.pid
  get_root_pid_reads fs job lawful is_containerd named placed =
      simp (is_containerd, blank_name lawful job.container_id named, named, placed) refl

  -- For a container of containerd, with files that can be opened, the root process is what `init.pid`
  -- holds, or, if there is no such file, what the file named after the container holds.
  pub get_root_pid_of_task :
      (fs : Files) (job : ProfilingJob) (c : String)
      → IsLawful x
      → job.container_runtime ≡ containerd
      → x.is_blank job.container_id ≡ false
      → x.is_blank job.container_runtime_path ≡ false
      → ((f : String) → os.open_error f fs ≡ none)
      → (get_root_pid (containers_of fs) job ≡ ok c) ↔ (
          (lookup (pid_file job.container_id job.container_runtime_path) fs ≡ some c)
          ⊎ ((lookup (pid_file job.container_id job.container_runtime_path) fs ≡ none)
              × (lookup (pid_container_id_file job.container_id job.container_runtime_path) fs
                  ≡ some c)))
  get_root_pid_of_task fs job c lawful is_containerd named placed opens =
      rw (get_root_pid_reads fs job lawful is_containerd named placed)
        (read_either_iff fs _ _ c opens)
