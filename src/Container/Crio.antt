-- ===== src/Container/Crio.antt =====
-- internal/agent/util/runtime/crio/crio.go
use application_profiler.Base.{not, Result, errorf, String, ◌<>◌, ◌>>=◌, ◌>>◌, guard, ok}
use application_profiler.Base.Digits.{itoa_ℤ}
use application_profiler.Base.Int.{ℤ}
use application_profiler.External.{External}
use application_profiler.World.{Files}
use application_profiler.Os.{Os}
use application_profiler.FileSystem.{read_file}
use application_profiler.Container.Spec.{
  Json, runtime_spec, container_id_mandatory_error, container_runtime_path_error, dereferenced,
  wrapped_result, result_of,
}

unfoldable pub crio_config_file : String → String → String
crio_config_file container_id container_runtime_path =
    container_runtime_path <> ("/overlay-containers/" <> (container_id <> "/userdata/config.json"))

unfoldable pub crio_state_file : String → String → String
crio_state_file container_id container_runtime_path =
    container_runtime_path <> ("/overlay-containers/" <> (container_id <> "/userdata/state.json"))

module _ (x : External) (os : Os) (json : Json) where
  unfoldable pub root_file_system_location : String → String → Files → Result String
  unfolding runtime_spec crio_config_file
  root_file_system_location container_id container_runtime_path fs = do
    guard (not (x.is_blank container_id)) (errorf container_id_mandatory_error)
    guard (not (x.is_blank container_runtime_path)) (errorf container_runtime_path_error)
    spec ← runtime_spec os json (crio_config_file container_id container_runtime_path) fs
    dereferenced spec.root_path

  -- `runtimeState`, of which only the process number is read.
  unfoldable pub runtime_state : String → Files → Result ℤ
  unfolding read_file
  runtime_state state_file fs = do
    bytes ← wrapped_result ("read file failed: " <> state_file) (read_file os state_file fs)
    wrapped_result ("unmarshal file failed: " <> state_file) (result_of (json.unmarshal_pid bytes))

  unfoldable pub pid : String → String → Files → Result String
  unfolding runtime_state crio_state_file itoa_ℤ
  pid container_id container_runtime_path fs = do
    guard (not (x.is_blank container_id)) (errorf container_id_mandatory_error)
    guard (not (x.is_blank container_runtime_path)) (errorf container_runtime_path_error)
    n ← runtime_state (crio_state_file container_id container_runtime_path) fs
    ok (itoa_ℤ n)

  unfoldable pub cwd : String → String → Files → Result String
  unfolding runtime_spec crio_config_file
  cwd container_id container_runtime_path fs = do
    guard (not (x.is_blank container_id)) (errorf container_id_mandatory_error)
    guard (not (x.is_blank container_runtime_path)) (errorf container_runtime_path_error)
    spec ← runtime_spec os json (crio_config_file container_id container_runtime_path) fs
    dereferenced spec.process_cwd
