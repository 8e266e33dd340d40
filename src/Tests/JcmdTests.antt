-- ===== src/Tests/JcmdTests.antt =====
-- Recordings of jcmd.
use application_profiler.Base.{
  ◌≡◌, refl, true, none, ok, panic, [], ◌∷◌, ◌++◌, if◌then◌else◌, arith,
}
use application_profiler.World.{sleep, World, opened, closed}
use application_profiler.Os.{Os}
use application_profiler.FileSystem.{put, exists}
use application_profiler.Profilers.Env.{Env}
use application_profiler.Profilers.Jcmd.{clean_up}
use application_profiler.Profilers.Jcmd.Recording.{await_recording, goes_on}
use application_profiler.Profilers.Jcmd.Stopping.{
  stops_within, await_recording_ends, await_recording_closed, clean_up_closes,
  clean_up_closed-eq-panic,
}
use application_profiler.Base.Int.{pos}
use application_profiler.Base.{replicate, ℕ, String, eqb, elem, eq_iff}
use application_profiler.Profilers.Jcmd.Stops.{
  polling, ignoring, waiting, set_waiter, send, take_own, Reach, here, next,
}
use application_profiler.Profilers.Jcmd.Stops.Lost.{Reach-ignoring, Reach-lost, lost}
use application_profiler.Tests.ActionTests.{job}
use application_profiler.Tests.Fixtures.{env, machine, occurs}

-- A recording that runs until its file is there, which is after a second.
abbrev recorder : Os
recorder = record machine {
  exec = λ c input fs. record {
    stdout = if exists "/tmp/a.jfr" fs then "" else "running";
    stderr = "";
    error = none;
    files = fs;
  };
  meanwhile = λ fs. put "/tmp/a.jfr" "data" fs;
}

abbrev jvm : Env
jvm = record env { os = recorder }

abbrev recording : World
recording = record {
  job = record job { output_type = "jfr" };
  target_pids = "7" ∷ "8" ∷ [];
  directory = "";
  recordings = opened 2 [];
  files = [];
  acts = [];
}

await_recording_ends_example :
    (await_recording jvm 3 "7" 1 "jfr" recording).0
    ≡ (if stops_within jvm "7" 1 "jfr" 3 recording.files then ok tt else panic)
await_recording_ends_example = await_recording_ends jvm "7" 1 "jfr" 3 2 recording refl

ends_in_time : stops_within jvm "7" 1 "jfr" 3 [] ≡ true
unfolding stops_within goes_on put occurs
ends_in_time = refl

abbrev after : World
after = record recording { recordings = closed [] }

await_recording_closed_example :
    ((await_recording jvm 3 "7" 1 "jfr" after).0 ≡ panic)
    × ((await_recording jvm 3 "7" 1 "jfr" after).1.acts
        ≡ after.acts ++ replicate 3 (sleep (pos 1_000_000_000)))
await_recording_closed_example = await_recording_closed jvm "7" 1 "jfr" 3 after refl refl

clean_up_closes_example :
    ((clean_up jvm recording).0 ≡ ok tt)
    × ((clean_up jvm recording).1.recordings ≡ closed ([] ++ ("7" ∷ "8" ∷ [])))
clean_up_closes_example = clean_up_closes jvm 2 [] recording refl (omega arith) refl

clean_up_closed-eq-panic_example : (clean_up jvm after).0 ≡ panic
clean_up_closed-eq-panic_example = clean_up_closed-eq-panic jvm [] after refl refl

abbrev two_pids : ℕ → String
two_pids i = if eqb i 0 then "7" else "8"

-- The first goroutine ignores its recording.
told_first :
    Reach 2 two_pids
      (waiting ("7" ∷ []))
      (record (waiting []) { sent = "7" ∷ []; waiters = set_waiter 0 ignoring (λ i. polling) })
told_first = next (next here (send "7" [] refl refl (omega arith))) (take_own 0 [] refl refl)

Reach-ignoring_example : elem "7" ("7" ∷ []) ≡ true
Reach-ignoring_example = Reach-ignoring 2 two_pids ("7" ∷ []) 0 told_first refl

Reach-lost_example :
    Reach 2 two_pids (waiting ("7" ∷ "8" ∷ [])) (lost 2 two_pids)
    × ((lost 2 two_pids).waiters 0 ≡ polling)
    × ((lost 2 two_pids).waiters 1 ≡ polling)
Reach-lost_example =
    Reach-lost 2 two_pids (omega arith) (λ e. absurd (ground (arith, (eq_iff "7" "8").1 e))) here
