-- ===== src/Profilers/Austin/Invoke.antt =====
-- The profiler for austin.
use Prim.Native.Char.{code}
use application_profiler.Base.{
  ℕ, suc, Bool, true, false, not, ◌&&◌, Result, ok, err, panic, Error, errorf, wrap, exit_error,
  pid_errors, Option, none, some, List, [], ◌∷◌, ◌++◌, String, ◌<>◌, ◌==◌, if◌then◌else◌, eqb, leb,
  length,
}
use application_profiler.Base.Int.{ℤ}
use application_profiler.Base.Text.{size_of}
use application_profiler.Base.Digits.{itoa}
use application_profiler.FilePath.{join_paths}
use application_profiler.Api.Outputs.{raw, flame_graph}
use application_profiler.Job.{ProfilingJob}
use application_profiler.Legend.{raw_lines}
use application_profiler.World.{Command}
use application_profiler.Os.{Completed}
use application_profiler.FileSystem.{size, move, put}
use application_profiler.Publisher.{publish, open_file}
use application_profiler.Io.{
  Io, pure, fail, ◌>>=◌, ◌>>◌, fail_if, require, wrapped, run, get_job, get_files, change_files,
  try_files, lift,
}
use application_profiler.Flamegraph.Grapher.{get_grapher}
use application_profiler.Action.Run.{Profiler}
use application_profiler.Profilers.Env.{Env, interval_text, timed}
use application_profiler.Profilers.Targets.{set_up_targets, invoke_each, remove_results, file_of}
use application_profiler.Profilers.Flames.{flames_if}
use application_profiler.Profilers.Python.{recorded_type, py_spy_delay_between_jobs}
use application_profiler.Profilers.Austin.Message.{austin_error_message}
use application_profiler.Profilers.Austin.Targets.{TargetFile, Proc, austin_target_files}

abbrev pub austin_location : String
austin_location = "austin"

abbrev pub mojo2austin_location : String
mojo2austin_location = "mojo2austin"

abbrev pub unshare_location : String
unshare_location = "unshare"

abbrev pub austin_interrupted_exit_code : ℕ
austin_interrupted_exit_code = 254

-- The codes of `mojoMagic`.
abbrev pub mojo_magic : List ℕ
mojo_magic = 77 ∷ 79 ∷ 74 ∷ 3 ∷ []

-- `austinStoppedOnSignal`. A command never fails with several errors.
unfoldable pub austin_stopped_on_signal : Error → Bool
austin_stopped_on_signal (exit_error n) = eqb n austin_interrupted_exit_code
austin_stopped_on_signal (wrap t e) = austin_stopped_on_signal e
austin_stopped_on_signal (errorf t) = false
austin_stopped_on_signal (pid_errors es) = false

unfoldable pub file_arguments : List TargetFile → List String
file_arguments [] = []
file_arguments (f ∷ fs) = f.source ∷ f.path ∷ file_arguments fs

unfoldable pub austin_arguments : ProfilingJob → String → String → List String
unfolding interval_text
austin_arguments job pid file_name =
    "-p" ∷ pid ∷ "-o" ∷ file_name ∷ "-x" ∷ interval_text job ∷ "-m" ∷ []

unfoldable pub starts_with : List ℕ → String → Bool
starts_with [] s = true
starts_with (k ∷ ks) String.[] = false
starts_with (k ∷ ks) (String.◌∷◌ c s) = eqb (code c) k && starts_with ks s

-- The scanner of the samples holds lines of less than 16 MiB.
abbrev pub max_sample : ℕ
max_sample = 16_777_215

abbrev is_sample : String → Bool
is_sample String.[] = false
is_sample (String.◌∷◌ c s) = eqb (code c) b'P'

unfoldable pub count_samples : List String → Result ℕ
count_samples [] = ok 0
count_samples (line ∷ lines) =
    let rest = count_samples lines in
    if not (leb (size_of line) max_sample)
    then err (errorf "bufio.Scanner: token too long")
    else if is_sample line
    then elim rest [ ok n ↦ ok (suc n) | err e ↦ err e | panic ↦ panic ]
    else rest

abbrev first_path : List TargetFile → String
first_path [] = "unknown binary"
first_path (f ∷ fs) = f.path

-- Without the target's files austin runs all the same.
abbrev files_or_none : Result (List TargetFile) → List TargetFile
files_or_none (ok files) = files
files_or_none (err e) = []
files_or_none panic = []

-- `script` is the shell script `austinInTargetFSScript`; `duration_text` is `%s` of a duration.
module _ (env : Env) (proc : Proc) (script : String) (duration_text : ℤ → String) where
  unfoldable pub austin_copy_dir : String → String
  unfolding join_paths
  austin_copy_dir pid = join_paths (env.os.tmp_dir ∷ ("austin-target-" <> pid) ∷ [])

  unfoldable pub austin_python_command : ProfilingJob → String → String → List TargetFile → Command
  unfolding austin_arguments file_arguments austin_copy_dir itoa
  austin_python_command job pid file_name [] = record {
    name = austin_location;
    args = austin_arguments job pid file_name;
  }
  austin_python_command job pid file_name (f ∷ fs) = record {
    name = unshare_location;
    args =
        ("-m"
          ∷ "--propagation"
          ∷ "private"
          ∷ "sh"
          ∷ "-c"
          ∷ script
          ∷ "sh"
          ∷ austin_copy_dir pid
          ∷ itoa (length (f ∷ fs))
          ∷ [])
        ++ (file_arguments (f ∷ fs) ++ austin_arguments job pid file_name);
  }

  unfoldable pub run_mojo2austin : String → Io (Unit {0})
  unfolding run move
  run_mojo2austin file_name = do
    out ←
        run env.os
          (record { name = mojo2austin_location; args = file_name ∷ (file_name <> ".txt") ∷ [] })
    fail_if (λ e. e) out.error
    try_files (move env.os (file_name <> ".txt") file_name)

  -- `convertMojo`
  unfoldable pub convert_mojo : String → Io (Unit {0})
  unfolding open_file starts_with run_mojo2austin
  convert_mojo file_name = open_file env.os file_name >>= λ bytes.
      if starts_with mojo_magic bytes then run_mojo2austin file_name else pure tt

  -- `austinSampleCount`
  unfoldable pub austin_sample_count : String → Io ℕ
  unfolding open_file count_samples raw_lines
  austin_sample_count file_name =
      open_file env.os file_name >>= λ bytes. lift (count_samples (raw_lines bytes))

  -- `appendLine`
  unfoldable pub append_line : String → String → Io (Unit {0})
  unfolding open_file put
  append_line file_name line =
      open_file env.os file_name >>= λ bytes. change_files (put file_name (bytes <> (line <> "\n")))

  unfoldable pub no_growth : ProfilingJob → String
  no_growth job =
      "no memory growth observed during the "
      <> (duration_text job.interval
          <> (" window: austin's memory mode records "
              <> "allocations that grow the process's memory, so a process at steady state yields no samples"))

  -- A profile without samples is an error, but for raw output, which gets a comment.
  unfoldable pub check_samples : ProfilingJob → String → String → ℕ → Io (Unit {0})
  unfolding append_line no_growth
  check_samples job pid file_name samples =
      if eqb samples 0
      then if job.output_type == raw
        then wrapped "could not annotate the profile"
            (append_line file_name ("# " <> no_growth job))
        else fail (errorf ("PID " <> (pid <> (": " <> no_growth job))))
      else pure tt

  unfoldable pub draw_flames : ProfilingJob → String → String → Io (Unit {0})
  unfolding flames_if get_grapher
  draw_flames job file_name result_file =
      if job.output_type == flame_graph
      then get_grapher env.packages >>= (λ grapher.
        wrapped "could not generate flamegraph"
          (flames_if env (λ n. not (eqb n 0)) job grapher file_name result_file))
      else pure tt

  -- An error that is no end by a signal.
  unfoldable pub launch_error : String → String → Completed → Option Error
  unfolding austin_stopped_on_signal austin_error_message
  launch_error pid binary out = elim out.error [
    | none ↦ none
    | some e ↦
        if austin_stopped_on_signal e
        then none
        else some (
            errorf (
              "could not launch profiler: austin (PID "
              <> (pid
                  <> (", "
                      <> (binary
                          <> ("): "
                              <> (austin_error_message out.stderr
                                  <> (" (" <> (env.text e <> ")")))))))))
  ]

  unfoldable pub no_samples : String → String → Completed → Error
  unfolding austin_error_message
  no_samples pid binary out = errorf (
      "no samples collected: austin (PID "
      <> (pid <> (", " <> (binary <> ("): " <> austin_error_message out.stderr)))))

  -- `austinPythonManager.invoke` with the files of the target, before the copies are removed.
  unfoldable pub sample_pid : String → List TargetFile → Io (Unit {0})
  unfolding run launch_error convert_mojo size no_samples austin_sample_count check_samples
      draw_flames publish file_of austin_python_command
  sample_pid pid files = do
    job ← get_job
    out ←
        run env.os (
          austin_python_command job pid (file_of env job (recorded_type job.output_type) pid) files)
    fail_if (λ e. e) (launch_error pid (first_path files) out)
    wrapped "could not convert the profile to text"
        (convert_mojo (file_of env job (recorded_type job.output_type) pid))
    fs ← get_files
    require (not (eqb (size (file_of env job (recorded_type job.output_type) pid) fs) 0))
        (no_samples pid (first_path files) out)
    samples ←
        wrapped "could not read the profile"
          (austin_sample_count (file_of env job (recorded_type job.output_type) pid))
    check_samples job pid (file_of env job (recorded_type job.output_type) pid) samples
    draw_flames job (file_of env job (recorded_type job.output_type) pid)
        (file_of env job job.output_type pid)
    publish env.os env.encode job.compressor (file_of env job job.output_type pid) job.output_type

  -- The deferred removal of the copies, whatever the outcome is.
  unfoldable pub removing_copies : String → List TargetFile → Io (Unit {0}) → Io (Unit {0})
  removing_copies dir [] m w = m w
  removing_copies dir (f ∷ fs) m w =
      let v = m w in (v.0, record v.1 { files = (env.os.remove_tree dir v.1.files).1 })

  -- `austinPythonManager.invoke`
  unfoldable pub invoke_pid : String → Io (Unit {0})
  unfolding sample_pid removing_copies austin_copy_dir austin_target_files
  invoke_pid pid =
      let files = files_or_none (austin_target_files proc pid) in
      removing_copies (austin_copy_dir pid) files (sample_pid pid files)

  abbrev set_up : Io (Unit {0})
  set_up = set_up_targets env

  abbrev pub invoke : Io (Unit {0})
  invoke = invoke_each env py_spy_delay_between_jobs invoke_pid

  abbrev clean_up : Io (Unit {0})
  clean_up = remove_results env

  unfoldable pub austin_python_profiler : Profiler
  austin_python_profiler = record {
    set_up = set_up;
    invoke = timed env invoke;
    clean_up = clean_up;
  }
