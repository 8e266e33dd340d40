-- ===== src/Container/Containerd.antt =====
-- internal/agent/util/runtime/containerd/containerd.go
use application_profiler.Base.{
  not, Result, ok, err, errorf, wrap, String, ◌<>◌, ◌>>=◌, ◌>>◌, guard, if◌then◌else◌,
}
use application_profiler.External.{External}
use application_profiler.World.{Files}
use application_profiler.Os.{Os}
use application_profiler.FileSystem.{read_file, exists, not_exist}
use application_profiler.Container.Spec.{
  Json, runtime_spec, container_id_mandatory_error, container_runtime_path_error, dereferenced,
  wrapped_result,
}

-- The directory of a container's files.
abbrev task_dir : String → String → String
task_dir container_id container_runtime_path =
    container_runtime_path <> ("/io.containerd.runtime.v2.task/k8s.io/" <> container_id)

unfoldable pub pid_file : String → String → String
pid_file container_id container_runtime_path =
    task_dir container_id container_runtime_path <> "/init.pid"

unfoldable pub pid_container_id_file : String → String → String
pid_container_id_file container_id container_runtime_path =
    task_dir container_id container_runtime_path <> ("/" <> (container_id <> ".pid"))

unfoldable pub root_fs : String → String → String
root_fs container_id container_runtime_path =
    task_dir container_id container_runtime_path <> "/rootfs"

unfoldable pub config_file : String → String → String
config_file container_id container_runtime_path =
    task_dir container_id container_runtime_path <> "/config.json"

module _ (x : External) (os : Os) (json : Json) where
  unfoldable pub root_file_system_location : String → String → Files → Result String
  unfolding root_fs
  root_file_system_location container_id container_runtime_path fs = do
    guard (not (x.is_blank container_id)) (errorf container_id_mandatory_error)
    guard (not (x.is_blank container_runtime_path)) (errorf container_runtime_path_error)
    ok (root_fs container_id container_runtime_path)

  unfoldable pub read_pid : String → Files → Result String
  unfolding read_file
  read_pid file fs = wrapped_result ("read file failed: " <> file) (read_file os file fs)

  -- The first file, or the second if there is no first.
  unfoldable pub read_either : String → String → Files → Result String
  unfolding read_pid not_exist
  read_either file other fs =
      if exists file fs
      then read_pid file fs
      else if exists other fs
      then read_pid other fs
      else err (wrap ("pid file not found: " <> other) (not_exist other))

  unfoldable pub pid : String → String → Files → Result String
  unfolding pid_file pid_container_id_file read_either
  pid container_id container_runtime_path fs = do
    guard (not (x.is_blank container_id)) (errorf container_id_mandatory_error)
    guard (not (x.is_blank container_runtime_path)) (errorf container_runtime_path_error)
    read_either (pid_file container_id container_runtime_path)
        (pid_container_id_file container_id container_runtime_path) fs

  unfoldable pub cwd : String → String → Files → Result String
  unfolding runtime_spec config_file
  cwd container_id container_runtime_path fs = do
    guard (not (x.is_blank container_id)) (errorf container_id_mandatory_error)
    guard (not (x.is_blank container_runtime_path)) (errorf container_runtime_path_error)
    spec ← runtime_spec os json (config_file container_id container_runtime_path) fs
    dereferenced spec.process_cwd
