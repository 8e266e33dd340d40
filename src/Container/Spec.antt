-- ===== src/Container/Spec.antt =====
-- What the container runtimes tell of a container in JSON files, and the fake runtime of
-- internal/agent/util/runtime/fake/runtime_fake.go.
use application_profiler.Base.{
  Bool, Result, ok, err, panic, Error, errorf, wrap, Option, none, some, String, ◌<>◌,
  if◌then◌else◌, ◌>>=◌, ◌⊎◌, inl, inr,
}
use application_profiler.Base.Int.{ℤ}
use application_profiler.World.{Files}
use application_profiler.Os.{Os}
use application_profiler.FileSystem.{read_file}

-- The fields of `rspec.Spec` that are read. `Root` and `Process` are pointers, which are nil if the
-- file does not have them.
pub record Spec : Type 0 where
  pub root_path : Option String
  pub process_cwd : Option String

-- `jsoniter.Unmarshal`, into `rspec.Spec` and into the process number of `rspec.State`. It belongs to a
-- package.
pub record Json : Type 0 where
  pub unmarshal_spec : String → Error ⊎ Spec
  pub unmarshal_pid : String → Error ⊎ ℤ

abbrev pub container_id_mandatory_error : String
container_id_mandatory_error = "container ID is mandatory"

abbrev pub container_runtime_path_error : String
container_runtime_path_error = "container runtime path is mandatory"

-- A field behind a pointer: a nil pointer panics.
abbrev pub dereferenced : Option String → Result String
dereferenced none = panic
dereferenced (some s) = ok s

-- `errors.Wrapf` on the error of a call
abbrev pub wrapped_result : {A : Type 0} → String → Result A → Result A
wrapped_result text (ok a) = ok a
wrapped_result text (err e) = err (wrap text e)
wrapped_result text panic = panic

abbrev pub result_of : {A : Type 0} → Error ⊎ A → Result A
result_of (inl e) = err e
result_of (inr a) = ok a

module _ (os : Os) (json : Json) where
  -- `runtimeSpec`, which crio.go and containerd.go both have.
  unfoldable pub runtime_spec : String → Files → Result Spec
  unfolding read_file
  runtime_spec config_file fs = do
    bytes ← wrapped_result ("read file failed: " <> config_file) (read_file os config_file fs)
    wrapped_result ("unmarshal file failed: " <> config_file)
        (result_of (json.unmarshal_spec bytes))

-- The fake runtime, with an error or not.
abbrev pub fake_result : Bool → String → String → Result String
fake_result fails text value = if fails then err (errorf text) else ok value

unfoldable pub fake_root_file_system_location : Bool → String → Result String
fake_root_file_system_location fails container_id =
    fake_result fails "fake RootFileSystemLocation with error" ("/root/fs/" <> container_id)

unfoldable pub fake_pid : Bool → String → Result String
fake_pid fails container_id = fake_result fails "fake PID with error" ("PID_" <> container_id)

unfoldable pub fake_cwd : Bool → Result String
fake_cwd fails = fake_result fails "fake CWD with error" "/cwd"
