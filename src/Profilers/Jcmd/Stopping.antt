-- ===== src/Profilers/Jcmd/Stopping.antt =====
-- When the wait for a recording of jcmd.go ends, and what `CleanUp` does to the channel of stopped
-- processes.
use application_profiler.Base.{
  ℕ, zero, suc, ◌+◌, ◌≤◌, ◌≡◌, refl, sym, ap, replicate, ◌∙◌, Bool, true, false, ok, panic, Option,
  none, some, List, [], ◌∷◌, ◌++◌, String, ◌==◌, if◌then◌else◌, arith, inl, inr, Bool-cases, length,
  append-nil, ◌<◌, length-append, append_assoc,
}
use application_profiler.Api.Outputs.{OutputType, jfr}
use application_profiler.Job.{ProfilingJob}
use application_profiler.World.{World, Files, Channel, opened, closed, act, run_command, sleep}
use application_profiler.Base.Int.{pos}
use application_profiler.Io.{
  ◌>>=◌, ◌>>◌, run, run_with, wait, change_files, get_recordings, set_recordings, lift, pure,
  get_job, get_target_pids,
}
use application_profiler.Io.Binding.{>>=-step, >>=-panic}
use application_profiler.Profilers.Env.{Env}
use application_profiler.Profilers.Jcmd.Recording.{
  jcmd_stop_command, await_recording, pass_second, poll, receive, goes_on, check_command,
}
use application_profiler.Profilers.Jcmd.{
  send, close, change_recordings, stop_recording, stop_recordings, remove_typed_results,
  stop_and_close, clean_up,
}

module _ (env : Env) (pid : String) (iteration : ℕ) (output_type : OutputType) where
  -- One of the next checks, a second apart, finds the recording neither running nor delayed.
  unfoldable pub stops_within : ℕ → Files → Bool
  stops_within zero fs = false
  stops_within (suc n) fs =
      let out = env.os.exec (check_command pid iteration output_type) "" fs in
      let later = stops_within n (env.os.meanwhile out.files) in
      if goes_on env out then later else true

  -- A second after the check.
  abbrev checked : World → World
  checked w =
      let out = env.os.exec (check_command pid iteration output_type) "" w.files in
      let w₁ = act (run_command (check_command pid iteration output_type)) w in
      record (act (sleep (pos 1_000_000_000)) w₁) { files = env.os.meanwhile out.files }

  -- A round that receives nothing from the channel.
  await_round :
      (fuel capacity : ℕ) (w : World)
      → w.recordings ≡ opened capacity []
      → (await_recording env (suc fuel) pid iteration output_type w).0 ≡ (
          if goes_on env (env.os.exec (check_command pid iteration output_type) "" w.files)
          then (await_recording env fuel pid iteration output_type (checked w)).0
          else ok tt)
  unfolding await_recording poll receive pass_second ◌>>=◌ run_with run wait change_files
      get_recordings pure
  await_round fuel capacity w h =
      elim (Bool-cases
        (goes_on env (env.os.exec (check_command pid iteration output_type) "" w.files))) [
          | inl e ↦ simp (h, e) refl
          | inr e ↦ simp (h, e) refl
        ]

  -- While no process is stopped, the wait ends exactly if one of the checks that the fuel allows finds
  -- that the recording has ended.
  pub await_recording_ends :
      (fuel capacity : ℕ) (w : World)
      → w.recordings ≡ opened capacity []
      → (await_recording env fuel pid iteration output_type w).0
        ≡ (if stops_within fuel w.files then ok tt else panic)
  unfolding stops_within lift await_recording
  await_recording_ends zero capacity w h = refl
  await_recording_ends (suc fuel) capacity w h =
      ground (arith, await_round fuel capacity w h, await_recording_ends fuel capacity (checked w))

  -- Once the channel is closed and empty, a wait for a process with a number never ends, and never
  -- checks its recording again: all that a number of rounds does is to sleep a second in each.
  pub await_recording_closed :
      (fuel : ℕ) (w : World)
      → w.recordings ≡ closed []
      → ("" == pid) ≡ false
      → ((await_recording env fuel pid iteration output_type w).0 ≡ panic)
        × ((await_recording env fuel pid iteration output_type w).1.acts
            ≡ w.acts ++ replicate fuel (sleep (pos 1_000_000_000)))
  unfolding await_recording poll receive pass_second ◌>>=◌ wait change_files get_recordings
      set_recordings lift
  await_recording_closed zero w h other = (refl, sym (append-nil w.acts))
  await_recording_closed (suc fuel) w h other =
      let w' = record (act (sleep (pos 1_000_000_000)) w) {
        files = env.os.meanwhile w.files;
        recordings = closed [];
      } in
      let (never, slept) = await_recording_closed fuel w' refl other in
      rw (h, other)
        (
          never,
          slept
              ∙ append_assoc w.acts (sleep (pos 1_000_000_000) ∷ [])
                  (replicate fuel (sleep (pos 1_000_000_000))),
        )

-- Changing the channel.
change_step :
    (f : Channel → Option Channel) (w : World) (c : Channel)
    → f w.recordings ≡ some c
    → change_recordings f w ≡ (ok tt, record w { recordings = c })
unfolding change_recordings ◌>>=◌ get_recordings set_recordings
change_step f w c h = rw (h, ◌>>=◌) refl

change_fails :
    (f : Channel → Option Channel) (w : World)
    → f w.recordings ≡ none
    → (change_recordings f w).0 ≡ panic
unfolding change_recordings ◌>>=◌ get_recordings lift
change_fails f w h = rw (h, ◌>>=◌) refl

send_room :
    (pid : String) (n : ℕ) (q : List String) (c : Channel)
    → c ≡ opened n q
    → length q < n
    → send pid c ≡ some (opened n (q ++ (pid ∷ [])))
unfolding send
send_room pid n q c h room = rw h (ground arith)

send_closed : (pid : String) (q : List String) (c : Channel) → c ≡ closed q → send pid c ≡ none
unfolding send
send_closed pid q c h = rw h refl

module _ (env : Env) where
  -- The wait and the command keep the channel.
  tail_keeps :
      (job : ProfilingJob) (pid : String) (w : World)
      → (((wait (pos 1_000_000_000) >> (run env.os (jcmd_stop_command job pid) >>= λ out. pure tt))
            w).0
          ≡ ok tt)
        × (((wait (pos 1_000_000_000)
                >> (run env.os (jcmd_stop_command job pid) >>= λ out. pure tt))
              w).1.recordings
            ≡ w.recordings)
  unfolding ◌>>=◌ run_with run wait pure
  tail_keeps job pid w = (refl, refl)

  stop_recording_sends :
      (job : ProfilingJob) (pid : String) (n : ℕ) (q : List String) (w : World)
      → w.recordings ≡ opened n q
      → length q < n
      → ((stop_recording env job pid w).0 ≡ ok tt)
        × ((stop_recording env job pid w).1.recordings ≡ opened n (q ++ (pid ∷ [])))
  unfolding stop_recording
  stop_recording_sends job pid n q w h room =
      let sent = change_step (send pid) w _ (send_room pid n q w.recordings h room) in
      rw (>>=-step (change_recordings (send pid)) _ w tt (rw sent refl))
        (rw sent (tail_keeps job pid (record w { recordings = opened n (q ++ (pid ∷ [])) })))

  stop_recordings_send :
      (job : ProfilingJob) (pids : List String) (n : ℕ) (q : List String) (w : World)
      → w.recordings ≡ opened n q
      → length q + length pids ≤ n
      → ((stop_recordings env job pids w).0 ≡ ok tt)
        × ((stop_recordings env job pids w).1.recordings ≡ opened n (q ++ pids))
  unfolding stop_recordings pure
  stop_recordings_send job [] n q w h room = (refl, rw (append-nil q) h)
  stop_recordings_send job (pid ∷ pids) n q w h room =
      let first = stop_recording_sends job pid n q w h (omega arith) in
      let rest =
        stop_recordings_send job pids n (q ++ (pid ∷ [])) (stop_recording env job pid w).1 first.1
          (omega (arith, length-append q (pid ∷ []))) in
      rw (>>=-step (stop_recording env job pid) _ w tt first.0)
        (rest.0, rest.1 ∙ ap (opened n) (append_assoc q (pid ∷ []) pids))

  stop_and_close_lem :
      (job : ProfilingJob) (n : ℕ) (q : List String) (w : World)
      → w.recordings ≡ opened n q
      → length q + length w.target_pids ≤ n
      → ((stop_and_close env job w).0 ≡ ok tt)
        × ((stop_and_close env job w).1.recordings ≡ closed (q ++ w.target_pids))
  unfolding stop_and_close remove_typed_results change_recordings close ◌>>=◌ get_target_pids
      change_files get_recordings set_recordings
  stop_and_close_lem job n q w h room =
      let sent = stop_recordings_send job w.target_pids n q w h room in
      rw (sent.0, ◌>>=◌) (rw (sent.1, close) (refl, refl))

  -- Where the channel has room for the processes, `CleanUp` of a job with recordings returns, and leaves
  -- the channel closed with each of the processes in it, in order.
  pub clean_up_closes :
      (n : ℕ) (q : List String) (w : World)
      → w.recordings ≡ opened n q
      → length q + length w.target_pids ≤ n
      → (w.job.output_type == jfr) ≡ true
      → ((clean_up env w).0 ≡ ok tt) × ((clean_up env w).1.recordings ≡ closed (q ++ w.target_pids))
  unfolding clean_up ◌>>=◌ get_job get_recordings
  clean_up_closes n q w h room o = simp (h, o) (stop_and_close_lem w.job n q w h room)

  stops_closed :
      (job : ProfilingJob) (pid : String) (pids : List String) (q : List String) (w : World)
      → w.recordings ≡ closed q
      → (stop_recordings env job (pid ∷ pids) w).0 ≡ panic
  unfolding stop_recordings stop_recording
  stops_closed job pid pids q w h =
      >>=-panic (stop_recording env job pid) (λ _. stop_recordings env job pids) w
        (>>=-panic (change_recordings (send pid)) _ w
          (change_fails (send pid) w (send_closed pid q w.recordings h)))

  close_closed :
      (job : ProfilingJob) (pids : List String) (q : List String) (w : World)
      → w.recordings ≡ closed q
      → ((stop_recordings env job pids >> (remove_typed_results env job >> change_recordings close))
          w).0
        ≡ panic
  unfolding stop_recordings remove_typed_results close ◌>>=◌ pure change_files
  close_closed job [] q w h = change_fails close _ (rw h refl)
  close_closed job (pid ∷ pids) q w h =
      >>=-panic (stop_recordings env job (pid ∷ pids))
        (λ _. remove_typed_results env job >> change_recordings close) w
        (stops_closed job pid pids q w h)

  -- If the channel is closed already, `CleanUp` of a job with recordings panics.
  pub clean_up_closed-eq-panic :
      (q : List String) (w : World)
      → w.recordings ≡ closed q
      → (w.job.output_type == jfr) ≡ true
      → (clean_up env w).0 ≡ panic
  unfolding clean_up ◌>>=◌ get_job get_recordings stop_and_close get_target_pids
  clean_up_closed-eq-panic q w h o = simp (h, o) (close_closed w.job w.target_pids q w h)
