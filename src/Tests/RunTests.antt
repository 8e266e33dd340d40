-- ===== src/Tests/RunTests.antt =====
-- Three rounds of a profiler that publishes the number of its round.
use application_profiler.Base.{
  ℕ, ◌+◌, ◌≡◌, ◌↔◌, ◌≤◌, refl, true, ok, err, errorf, List, [], ◌∷◌, arith, eqb, if◌then◌else◌,
}
use application_profiler.Base.Int.{pos}
use application_profiler.World.{
  absent, started, ended, World, Act, ResultData, event, sleep, run_command, signal, progress,
  result, notice, error_event, emit,
}
use application_profiler.Action.Run.{
  Profiler, Seconds, run, rounds, iterations_of, rest_of_interval, pause,
}
use application_profiler.Action.Rounds.{
  Performed, IsQuiet, ended_events, ended_events-append, ok_count, run-ok_iff, run-ended_events,
}
use application_profiler.Io.Results.{result_events, result_events-append}
use application_profiler.Action.Published.{IsProductive, run_publishes}
use application_profiler.Tests.ActionTests.{job}

abbrev published : ℕ → ResultData
published i = record {
  result_type = "raw";
  file = "";
  file_size_in_bytes = i;
  checksum = "";
  compressor_type = "none";
  chunks = [];
}

-- It fails in the given round.
abbrev profiler : ℕ → Profiler
profiler last = record {
  set_up = λ w. (ok tt, w);
  invoke = λ w. (
    if eqb w.job.iteration last then err (errorf "failed") else ok tt,
    pos 1_000_000,
    emit (result (published w.job.iteration)) w,
  );
  clean_up = λ w. (ok tt, w);
}

-- Three rounds, whatever the durations are.
abbrev seconds : Seconds
seconds = record { quotient = λ a b. pos 3; shorter = λ a b. true }

abbrev sizes : List Act → List ℕ
sizes [] = []
sizes (event (result d) ∷ acts) = d.file_size_in_bytes ∷ sizes acts
sizes (event (progress s) ∷ acts) = sizes acts
sizes (event (notice s) ∷ acts) = sizes acts
sizes (event (error_event e) ∷ acts) = sizes acts
sizes (sleep d ∷ acts) = sizes acts
sizes (run_command c ∷ acts) = sizes acts
sizes (signal p n ∷ acts) = sizes acts

abbrev seen : World → List ℕ
seen w = sizes w.acts

profiler-IsQuiet : (last : ℕ) → IsQuiet (profiler last)
profiler-IsQuiet last = record {
  set_up_quiet = λ w. refl;
  invoke_quiet = λ w.
      omega (arith, ended_events-append w.acts (event (result (published w.job.iteration)) ∷ []));
}

abbrev before : World
before = record {
  job = job;
  target_pids = [];
  directory = "";
  recordings = absent;
  files = [];
  acts = [];
}

three_rounds : seen (run seconds (profiler 9) before).1 ≡ 1 ∷ 2 ∷ 3 ∷ []
unfolding run rounds iterations_of rest_of_interval pause
three_rounds = refl

run-ok_iff_example :
    ((run seconds (profiler 9) before).0 ≡ ok tt)
    ↔ (((profiler 9).set_up (emit (progress started) before)).0 ≡ ok tt)
      × (w' : World) × Performed seconds
          (profiler 9)
          3
          (1 ∷ 2 ∷ 3 ∷ [])
          (emit (progress started) before)
          w'
      × ((run seconds (profiler 9) before).1 ≡ emit (progress ended) w')
unfolding iterations_of
run-ok_iff_example = run-ok_iff seconds (profiler 9) before

run-ended_events_example :
    ended_events (run seconds (profiler 9) before).1.acts
    ≡ ended_events before.acts + ok_count (run seconds (profiler 9) before).0
run-ended_events_example = run-ended_events seconds (profiler 9) (profiler-IsQuiet 9) before

-- The same profiler, which never fails.
abbrev steady : Profiler
steady = record (profiler 9) {
  invoke = λ w. (ok tt, pos 1_000_000, emit (result (published w.job.iteration)) w);
}

steady-IsProductive : IsProductive steady
steady-IsProductive = record {
  set_up_quiet = λ w. refl;
  invoke_publishes = λ w h.
      omega (arith, result_events-append w.acts (event (result (published w.job.iteration)) ∷ []));
  invoke_fails = λ w e h. cc;
}

run_publishes_example :
    result_events before.acts + iterations_of seconds steady (emit (progress started) before)
    ≤ result_events (run seconds steady before).1.acts
unfolding run rounds iterations_of rest_of_interval pause
run_publishes_example = run_publishes seconds steady steady-IsProductive before refl
