-- ===== src/Profilers/Jcmd.antt =====
-- internal/agent/profiler/jvm/jcmd.go
pub mod Recording
pub mod Published
pub mod Stopping
pub mod Stops
use application_profiler.Base.{
  ℕ, ◌||◌, wrap, Option, none, some, Result, panic, List, [], ◌∷◌, String, ◌<>◌, ◌==◌,
  if◌then◌else◌, ltb, length, ◌++◌,
}
use application_profiler.Base.Int.{ℤ, pos}
use application_profiler.FilePath.{join_paths}
use application_profiler.ResultFile.{profiling_prefix}
use application_profiler.Api.Outputs.{OutputType, jfr, raw, thread_dump, heap_dump, heap_histogram}
use application_profiler.Compressor.{CompressorType}
use application_profiler.Job.{ProfilingJob}
use application_profiler.World.{Command, Channel, absent, opened, closed}
use application_profiler.Os.{Os, Completed}
use application_profiler.FileSystem.{remove_all, write, put}
use application_profiler.Publisher.{create_file, publish, publish_chunks}
use application_profiler.Container.Runtime.{container_file_system}
use application_profiler.Io.{
  Io, pure, ◌>>=◌, ◌>>◌, fail_if, wrapped, run, lift, wait, get_job, change_files, get_target_pids,
  get_recordings, set_recordings,
}
use application_profiler.Action.Run.{Profiler}
use application_profiler.Profilers.Env.{Env, timed}
use application_profiler.Profilers.Targets.{set_up_targets, invoke_each, file_of}
use application_profiler.Profilers.Async.{link_tmp_dir}
use application_profiler.Profilers.Jcmd.Recording.{jcmd_command, jcmd_stop_command, await_recording}

abbrev pub jfr_location : String
jfr_location = "/opt/jdk/bin/jfr"

abbrev pub jfr_settings_image_file_path : String
jfr_settings_image_file_path = "/app/jfr/settings/jfr-profile.jfc"

abbrev pub jcmd_delay_between_jobs : ℤ
jcmd_delay_between_jobs = pos 2_000_000_000

-- `c <- pid`. A send to a closed channel panics; one to a channel that is full or was not made blocks
-- for ever, and gives no result.
unfoldable pub send : String → Channel → Option Channel
send pid absent = none
send pid (opened capacity pids) =
    if ltb (length pids) capacity then some (opened capacity (pids ++ (pid ∷ []))) else none
send pid (closed pids) = none

-- `close(c)`, which panics if the channel is closed.
unfoldable pub close : Channel → Option Channel
close absent = none
close (opened capacity pids) = some (closed pids)
close (closed pids) = none

unfoldable pub set_or_panic : Option Channel → Io (Unit {0})
set_or_panic none = lift panic
set_or_panic (some c) = set_recordings c

unfoldable pub change_recordings : (Channel → Option Channel) → Io (Unit {0})
unfolding set_or_panic
change_recordings f = get_recordings >>= λ c. set_or_panic (f c)

module _ (env : Env) where
  unfoldable pub copy_jfr_settings_to_tmp_dir : Io (Unit {0})
  unfolding run
  copy_jfr_settings_to_tmp_dir =
      run env.os (record { name = "cp"; args = jfr_settings_image_file_path ∷ env.os.tmp_dir ∷ [] })
      >>= λ out. fail_if (λ e. e) out.error

  -- The channel has room for each process.
  unfoldable pub set_up : Io (Unit {0})
  unfolding link_tmp_dir set_up_targets copy_jfr_settings_to_tmp_dir container_file_system
  set_up = do
    job ← get_job
    target_fs ← lift (
        container_file_system env.containers job.container_runtime job.container_id
          job.container_runtime_path)
    link_tmp_dir env job target_fs
    set_up_targets env
    pids ← get_target_pids
    set_recordings (opened (length pids) [])
    copy_jfr_settings_to_tmp_dir

  -- `handleJFRFile`
  unfoldable pub handle_jfr_file : String → Io String
  unfolding run
  handle_jfr_file file_name = do
    out ← run env.os (record { name = jfr_location; args = "summary" ∷ file_name ∷ [] })
    fail_if (λ e. e) out.error
    pure out.stdout

  -- `os.WriteFile`
  unfoldable pub write_file : String → String → Io (Unit {0})
  unfolding create_file put
  write_file f c = create_file env.os f >> change_files (put f c)

  unfoldable pub handle_profiling_result :
      ProfilingJob → String → Completed → String → Io (Unit {0})
  unfolding await_recording handle_jfr_file write write_file
  handle_profiling_result job file_name out pid =
      if job.output_type == jfr
      then await_recording env env.fuel pid job.iteration job.output_type
      else if job.output_type == thread_dump || job.output_type == heap_histogram
      then wrapped "could not save dump to file" (write_file file_name out.stdout)
      else if job.output_type == raw
      then (await_recording env env.fuel pid job.iteration job.output_type
          >> (wrapped "error while converting JFR file to raw output" (handle_jfr_file file_name)
              >>= λ text. change_files (write env.os file_name text)))
      else pure tt

  unfoldable pub publish_result : CompressorType → String → OutputType → String → Io (Unit {0})
  unfolding publish publish_chunks
  publish_result c file_name output_type chunk_size =
      if output_type == heap_dump
      then publish_chunks env.os env.packages file_name chunk_size output_type
      else publish env.os env.encode c file_name output_type

  -- `jcmdManager.invoke`
  unfoldable pub invoke_pid : String → Io (Unit {0})
  unfolding run jcmd_command file_of handle_profiling_result publish_result
  invoke_pid pid = do
    job ← get_job
    out ← run env.os (jcmd_command job pid (file_of env job job.output_type pid))
    fail_if (wrap ("could not launch profiler: " <> out.stderr)) out.error
    handle_profiling_result job (file_of env job job.output_type pid) out pid
    publish_result job.compressor (file_of env job job.output_type pid) job.output_type
        job.heap_dump_split_in_chunk_size

  abbrev pub invoke : Io (Unit {0})
  invoke = invoke_each env jcmd_delay_between_jobs invoke_pid

  -- `jcmdManager.cleanUp`; errors are only logged.
  unfoldable pub stop_recording : ProfilingJob → String → Io (Unit {0})
  unfolding change_recordings send run jcmd_stop_command
  stop_recording job pid =
      change_recordings (send pid)
      >> (wait (pos 1_000_000_000) >> (run env.os (jcmd_stop_command job pid) >>= λ out. pure tt))

  unfoldable pub stop_recordings : ProfilingJob → List String → Io (Unit {0})
  unfolding stop_recording
  stop_recordings job [] = pure tt
  stop_recordings job (pid ∷ pids) =
      let rest = stop_recordings job pids in stop_recording job pid >> rest

  unfoldable pub remove_typed_results : ProfilingJob → Io (Unit {0})
  unfolding remove_all
  remove_typed_results job =
      change_files (remove_all env.os env.os.tmp_dir (profiling_prefix <> job.output_type))

  unfoldable pub stop_and_close : ProfilingJob → Io (Unit {0})
  unfolding stop_recordings remove_typed_results change_recordings close
  stop_and_close job = do
    pids ← get_target_pids
    stop_recordings job pids
    remove_typed_results job
    change_recordings close

  -- Recordings are stopped if the channel was made; it is closed last.
  unfoldable pub release : ProfilingJob → Channel → Io (Unit {0})
  unfolding stop_and_close remove_typed_results
  release job absent = remove_typed_results job
  release job (opened capacity pids) =
      if job.output_type == jfr then stop_and_close job else remove_typed_results job
  release job (closed pids) =
      if job.output_type == jfr then stop_and_close job else remove_typed_results job

  unfoldable pub clean_up : Io (Unit {0})
  unfolding release
  clean_up = do job ← get_job; c ← get_recordings; release job c

  unfoldable pub jcmd_profiler : Profiler
  jcmd_profiler = record { set_up = set_up; invoke = timed env invoke; clean_up = clean_up }
