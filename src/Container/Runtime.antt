-- ===== src/Container/Runtime.antt =====
-- The implementations of the interface `Container`, and the functions of container.go that ask one.
use application_profiler.Base.{
  Result, ok, err, errorf, ◌>>=◌, ◌>>◌, guard, String, ◌<>◌, ◌==◌, ◌||◌, not, if◌then◌else◌, Bool,
}
use application_profiler.Job.{ProfilingJob}
use application_profiler.Api.Runtimes.{
  ContainerRuntime, crio, containerd, fake_container, fake_with_root_error, fake_with_pid_error,
  fake_with_cwd_error,
}

pub data Container : Type 0 where
  crio_container containerd_container fake fake_root_error fake_pid_error fake_cwd_error : Container

-- The methods of `Container`: they read the files of the container runtime.
pub record Containers : Type 0 where
  pub root_file_system_location : Container → String → String → Result String
  pub pid : Container → String → String → Result String
  pub cwd : Container → String → String → Result String

unfoldable pub runtime : ContainerRuntime → Result Container
runtime r =
    if r == ""
    then err (errorf "container runtime is are mandatory")
    else if r == crio
    then ok crio_container
    else if r == containerd
    then ok containerd_container
    else if r == fake_container
    then ok fake
    else if r == fake_with_root_error
    then ok fake_root_error
    else if r == fake_with_pid_error
    then ok fake_pid_error
    else if r == fake_with_cwd_error
    then ok fake_cwd_error
    else err (errorf ("unsupported container runtime: " <> r))

abbrev pub mandatory_text : String
mandatory_text = "container runtime and container ID are mandatory"

-- The test that the functions below begin with.
abbrev pub has_container : ContainerRuntime → String → Bool
has_container r container_id = not (r == "" || container_id == "")

module _ (cs : Containers) where
  unfoldable pub container_file_system : ContainerRuntime → String → String → Result String
  unfolding runtime
  container_file_system r container_id container_runtime_path = do
    guard (has_container r container_id) (errorf mandatory_text)
    c ← runtime r
    cs.root_file_system_location c container_id container_runtime_path

  unfoldable pub get_root_pid : ProfilingJob → Result String
  unfolding runtime
  get_root_pid job = do
    guard (has_container job.container_runtime job.container_id) (errorf mandatory_text)
    c ← runtime job.container_runtime
    cs.pid c job.container_id job.container_runtime_path

  unfoldable pub get_cwd : ProfilingJob → Result String
  unfolding runtime
  get_cwd job = do
    guard (has_container job.container_runtime job.container_id) (errorf mandatory_text)
    c ← runtime job.container_runtime
    cs.cwd c job.container_id job.container_runtime_path
