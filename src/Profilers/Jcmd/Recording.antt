-- ===== src/Profilers/Jcmd/Recording.antt =====
-- The wait for a recording of jcmd.go: `handleJcmdRecording`, and the commands of jcmd.
use application_profiler.Base.{
  ℕ, zero, suc, Bool, not, ◌&&◌, Option, none, some, panic, [], ◌∷◌, String, ◌<>◌, ◌==◌,
  if◌then◌else◌,
}
use application_profiler.Base.Int.{pos}
use application_profiler.Base.Digits.{itoa}
use application_profiler.Api.Outputs.{OutputType, thread_dump, heap_dump, heap_histogram}
use application_profiler.Job.{ProfilingJob}
use application_profiler.World.{Command, Channel, absent, opened, closed}
use application_profiler.Os.{Completed}
use application_profiler.Io.{
  Io, pure, ◌>>=◌, ◌>>◌, run, lift, wait, change_files, get_recordings, set_recordings,
}
use application_profiler.Profilers.Env.{Env, interval_text}

abbrev pub jcmd_location : String
jcmd_location = "/opt/jdk/bin/jcmd"

abbrev pub jfr_settings_tmp_file_path : String
jfr_settings_tmp_file_path = "/tmp/jfr-profile.jfc"

-- `invocationName`
unfoldable pub invocation_name : String → ℕ → OutputType → String
unfolding itoa
invocation_name pid iteration output_type =
    "name=pid_" <> (pid <> ("_" <> (itoa iteration <> ("_" <> output_type))))

unfoldable pub jcmd_command : ProfilingJob → String → String → Command
unfolding interval_text invocation_name
jcmd_command job pid file_name =
    if job.output_type == thread_dump
    then record { name = jcmd_location; args = pid ∷ "Thread.print" ∷ [] }
    else if job.output_type == heap_dump
    then record { name = jcmd_location; args = pid ∷ "GC.heap_dump" ∷ file_name ∷ [] }
    else if job.output_type == heap_histogram
    then record { name = jcmd_location; args = pid ∷ "GC.class_histogram" ∷ [] }
    else record {
      name = jcmd_location;
      args =
          pid
          ∷ "JFR.start"
          ∷ ("duration=" <> (interval_text job <> "s"))
          ∷ ("filename=" <> file_name)
          ∷ invocation_name pid job.iteration job.output_type
          ∷ ("settings=" <> jfr_settings_tmp_file_path)
          ∷ [];
    }

unfoldable pub jcmd_stop_command : ProfilingJob → String → Command
unfolding invocation_name
jcmd_stop_command job pid = record {
  name = jcmd_location;
  args = pid ∷ "JFR.stop" ∷ invocation_name pid job.iteration job.output_type ∷ [];
}

unfoldable pub check_command : String → ℕ → OutputType → Command
unfolding invocation_name
check_command pid iteration output_type = record {
  name = jcmd_location;
  args = pid ∷ "JFR.check" ∷ invocation_name pid iteration output_type ∷ [];
}

-- What a `select` with a default finds in the channel: a text, with the channel without it, or
-- nothing. A closed channel always has a text for its receiver.
unfoldable pub receive : Channel → Option (String × Channel)
receive absent = none
receive (opened capacity []) = none
receive (opened capacity (p ∷ ps)) = some (p, opened capacity ps)
receive (closed []) = some ("", closed [])
receive (closed (p ∷ ps)) = some (p, closed ps)

module _ (env : Env) where
  -- The recording goes on after a check that finds it running or delayed.
  unfoldable pub goes_on : Completed → Bool
  goes_on out = elim out.error [
    | some e ↦ Bool.false
    | none ↦ not (
        not (env.packages.contains_text out.stdout "running")
        && not (env.packages.contains_text out.stdout "delayed"))
  ]

  -- A second passes, and other processes change the files.
  unfoldable pub pass_second : Io (Unit {0})
  pass_second = wait (pos 1_000_000_000) >> change_files env.os.meanwhile

  -- One round of the loop, with what is received from the channel and the rounds behind it. If the
  -- process itself is received, the goroutine returns and nothing is sent to `done`: the call never
  -- returns, and there is no result.
  unfoldable pub poll :
      String → ℕ → OutputType → Io (Unit {0}) → Option (String × Channel) → Io (Unit {0})
  unfolding run
  poll pid iteration output_type again (some (current, c)) =
      set_recordings c >> (if current == pid then lift panic else again)
  poll pid iteration output_type again none =
      run env.os (check_command pid iteration output_type) >>= λ out.
      if goes_on out then again else pure tt

  -- `handleJcmdRecording`, with fuel for the rounds of its loop.
  unfoldable pub await_recording : ℕ → String → ℕ → OutputType → Io (Unit {0})
  unfolding receive pass_second poll
  await_recording zero pid iteration output_type = lift panic
  await_recording (suc fuel) pid iteration output_type =
      let again = pass_second >> await_recording fuel pid iteration output_type in
      get_recordings >>= λ c. poll pid iteration output_type again (receive c)
