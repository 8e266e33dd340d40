-- ===== src/Profilers/Node.antt =====
-- internal/agent/profiler/node_dummy.go
use application_profiler.Base.{
  ℕ, zero, suc, ◌&&◌, not, wrap, errorf, [], ◌∷◌, String, ◌<>◌, ◌==◌, if◌then◌else◌, eqb,
}
use application_profiler.Base.Int.{pos}
use application_profiler.Base.Digits.{itoa_ℤ}
use application_profiler.Base.Text.Searching.{atoi}
use application_profiler.FilePath.{join_paths}
use application_profiler.World.{Files}
use application_profiler.FileSystem.{first_match, size, copy, remove, remove_all}
use application_profiler.Publisher.{publish_chunks}
use application_profiler.Container.Runtime.{container_file_system, get_cwd, get_root_pid}
use application_profiler.Container.Children.{get_first_candidate_pid, get_child}
use application_profiler.Io.{
  Io, pure, fail, ◌>>=◌, ◌>>◌, fail_if, wrapped, get_job, get_files, change_files, lift, wait,
  send_signal, get_directory, set_directory,
}
use application_profiler.Action.Run.{Profiler}
use application_profiler.Profilers.Env.{Env, timed}
use application_profiler.Profilers.Targets.{remove_results, file_of}

abbrev pub node_dummy_snapshot_retries : ℕ
node_dummy_snapshot_retries = 120

module _ (env : Env) where
  -- `SetUp`. What is removed is in the directory as the container names it.
  unfoldable pub set_up : Io (Unit {0})
  unfolding container_file_system get_cwd remove_all join_paths
  set_up = do
    job ← get_job
    target_fs ← lift (
        container_file_system env.containers job.container_runtime job.container_id
          job.container_runtime_path)
    cwd ← lift (get_cwd env.containers job)
    set_directory (join_paths (target_fs ∷ cwd ∷ []))
    change_files (remove_all env.os cwd "*.heapsnapshot*")

  -- A second passes, and other processes change the files.
  unfoldable pub tick : Io (Unit {0})
  tick = wait (pos 1_000_000_000) >> change_files env.os.meanwhile

  unfoldable pub snapshot_in : String → Files → String
  unfolding first_match join_paths
  snapshot_in cwd fs = first_match (join_paths (cwd ∷ "*.heapsnapshot*" ∷ [])) fs

  -- The loop, with the retries that are left, `fileSize` and `currentFileSize`: it ends when a
  -- snapshot has the size that was seen before.
  unfoldable pub await_snapshot : String → String → ℕ → ℕ → ℕ → Io String
  unfolding tick snapshot_in size
  await_snapshot pid cwd zero file_size current = do
    tick
    fs ← get_files
    if not (snapshot_in cwd fs == "") && eqb (size (snapshot_in cwd fs) fs) file_size
        then pure (snapshot_in cwd fs)
        else fail (errorf ("no heapsnapshot files found (PID: " <> (pid <> ")")))
  await_snapshot pid cwd (suc retries) file_size current = do
    tick
    fs ← get_files
    if not (snapshot_in cwd fs == "") && eqb (size (snapshot_in cwd fs) fs) file_size
        then pure (snapshot_in cwd fs)
        else if snapshot_in cwd fs == ""
        then await_snapshot pid cwd retries current current
        else await_snapshot pid cwd retries (size (snapshot_in cwd fs) fs)
            (size (snapshot_in cwd fs) fs)

  -- `file.Copy`
  unfoldable pub copy_file : String → String → Io (Unit {0})
  unfolding copy
  copy_file src dst = get_files >>= λ fs.
      change_files (λ _. (copy env.os src dst fs).1)
      >> (lift (copy env.os src dst fs).0 >>= λ n. pure tt)

  -- `nodeDummyManager.invoke`
  unfoldable pub invoke_pid : String → String → Io (Unit {0})
  unfolding await_snapshot copy_file remove file_of publish_chunks atoi itoa_ℤ
  invoke_pid pid cwd = do
    job ← get_job
    send_signal (atoi pid).0 job.node_heap_snapshot_signal
    fail_if
        (wrap (
          "unable to send signal: "
          <> (itoa_ℤ job.node_heap_snapshot_signal
              <> (" to target process (PID: " <> (pid <> ")")))))
        (env.os.kill (atoi pid).0 job.node_heap_snapshot_signal)
    snapshot ← await_snapshot pid cwd node_dummy_snapshot_retries 1 0
    wrapped ("could not move file: " <> snapshot)
        (copy_file snapshot (file_of env job job.output_type pid))
    change_files (λ fs. (remove env.os snapshot fs).1)
    publish_chunks env.os env.packages (file_of env job job.output_type pid)
        job.heap_dump_split_in_chunk_size job.output_type

  unfoldable pub invoke : Io (Unit {0})
  unfolding get_root_pid get_first_candidate_pid get_child invoke_pid
  invoke = do
    job ← get_job
    root_pid ← lift (get_root_pid env.containers job)
    cwd ← get_directory
    invoke_pid
        (get_first_candidate_pid env.packages (get_child env.packages env.commander) root_pid) cwd

  abbrev clean_up : Io (Unit {0})
  clean_up = remove_results env

  unfoldable pub node_dummy_profiler : Profiler
  node_dummy_profiler = record { set_up = set_up; invoke = timed env invoke; clean_up = clean_up }
