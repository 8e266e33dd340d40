-- ===== src/Api/Runtimes.antt =====
-- api/runtimes.go
use application_profiler.Base.{Bool, true, List, [], ◌∷◌, ◌||◌, String, ◌==◌, if◌then◌else◌}
use application_profiler.External.{External}

abbrev pub ContainerRuntime : Type 0
ContainerRuntime = String

abbrev pub crio : ContainerRuntime
crio = "crio"

abbrev pub containerd : ContainerRuntime
containerd = "containerd"

abbrev pub fake_container : ContainerRuntime
fake_container = "fake"

abbrev pub fake_with_root_error : ContainerRuntime
fake_with_root_error = "fakeWithRootFileSystemLocationResultError"

abbrev pub fake_with_pid_error : ContainerRuntime
fake_with_pid_error = "fakeWithPIDResultError"

abbrev pub fake_with_cwd_error : ContainerRuntime
fake_with_cwd_error = "fakeWithCWDResultError"

abbrev pub container_runtimes : List ContainerRuntime
container_runtimes = crio ∷ containerd ∷ []

abbrev pub container_runtime_root_path : List (ContainerRuntime × String)
container_runtime_root_path =
    (crio, "/var/lib/containers/storage") ∷ (containerd, "/run/containerd") ∷ []

unfoldable pub is_supported_container_runtime : External → String → Bool
is_supported_container_runtime x runtime =
    if runtime == fake_container
      || runtime == fake_with_root_error
      || runtime == fake_with_pid_error
      || runtime == fake_with_cwd_error
    then true
    else x.contains container_runtimes runtime
