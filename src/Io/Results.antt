-- ===== src/Io/Results.antt =====
-- How many results an action publishes.
use application_profiler.Base.{
  ℕ, ◌+◌, ◌≡◌, refl, Result, ok, err, panic, Error, Option, none, some, List, [], ◌∷◌, ◌++◌, String,
  Bool, if◌then◌else◌, arith, inl, inr, Result-cases,
}
use application_profiler.Base.Int.{ℤ}
use application_profiler.Job.{ProfilingJob}
use application_profiler.World.{
  World, Channel, Files, Act, event, sleep, run_command, signal, progress, result, notice,
  error_event, Command, ResultData,
}
use application_profiler.Os.{Os}
use application_profiler.Io.{
  Io, pure, fail, ◌>>=◌, wrapped, fail_if, get_job, emit_event, run, run_with, get_files,
  change_files, lift, set_job, get_target_pids, wait, send_signal, try_files, set_target_pids,
  get_directory, set_directory, get_recordings, set_recordings,
}

abbrev is_result : Act → ℕ
is_result (event (result d)) = 1
is_result (event (progress s)) = 0
is_result (event (notice s)) = 0
is_result (event (error_event e)) = 0
is_result (sleep d) = 0
is_result (run_command c) = 0
is_result (signal p n) = 0

-- The results that were published.
abbrev pub result_events : List Act → ℕ
result_events [] = 0
result_events (a ∷ acts) = is_result a + result_events acts

pub result_events-append :
    (xs ys : List Act) → result_events (xs ++ ys) ≡ result_events xs + result_events ys
result_events-append [] ys = omega arith
result_events-append (x ∷ xs) ys = omega (arith, result_events-append xs ys)

abbrev pub ok_count : {A : Type 0} → Result A → ℕ
ok_count (ok _) = 1
ok_count (err _) = 0
ok_count panic = 0

-- The action publishes nothing, whether it fails or not.
unfoldable pub IsQuiet : {A : Type 0} → Io A → Type 0
IsQuiet m = (w : World) → result_events (m w).1.acts ≡ result_events w.acts

-- The action publishes one result if it succeeds, and none if it fails.
unfoldable pub Publishes : {A : Type 0} → Io A → Type 0
Publishes m = (w : World) → result_events (m w).1.acts ≡ result_events w.acts + ok_count (m w).0

pub pure-IsQuiet : {A : Type 0} (a : A) → IsQuiet (pure a)
unfolding IsQuiet pure
pure-IsQuiet a w = refl

pub fail-IsQuiet : (A : Type 0) (e : Error) → IsQuiet (fail {A = A} e)
unfolding IsQuiet fail
fail-IsQuiet A e w = refl

pub fail-Publishes : (A : Type 0) (e : Error) → Publishes (fail {A = A} e)
unfolding Publishes fail
fail-Publishes A e w = omega arith

pub fail_if-IsQuiet : (f : Error → Error) (o : Option Error) → IsQuiet (fail_if f o)
unfolding IsQuiet fail_if pure fail
fail_if-IsQuiet f none w = refl
fail_if-IsQuiet f (some e) w = refl

pub get_job-IsQuiet : IsQuiet get_job
unfolding IsQuiet get_job
get_job-IsQuiet w = refl

pub get_files-IsQuiet : IsQuiet get_files
unfolding IsQuiet get_files
get_files-IsQuiet w = refl

pub change_files-IsQuiet : (f : Files → Files) → IsQuiet (change_files f)
unfolding IsQuiet change_files
change_files-IsQuiet f w = refl

pub lift-IsQuiet : (A : Type 0) (r : Result A) → IsQuiet (lift r)
unfolding IsQuiet lift
lift-IsQuiet A r w = refl

pub set_job-IsQuiet : (job : ProfilingJob) → IsQuiet (set_job job)
unfolding IsQuiet set_job
set_job-IsQuiet job w = refl

pub get_target_pids-IsQuiet : IsQuiet get_target_pids
unfolding IsQuiet get_target_pids
get_target_pids-IsQuiet w = refl

pub set_target_pids-IsQuiet : (pids : List String) → IsQuiet (set_target_pids pids)
unfolding IsQuiet set_target_pids
set_target_pids-IsQuiet pids w = refl

pub get_directory-IsQuiet : IsQuiet get_directory
unfolding IsQuiet get_directory
get_directory-IsQuiet w = refl

pub set_directory-IsQuiet : (dir : String) → IsQuiet (set_directory dir)
unfolding IsQuiet set_directory
set_directory-IsQuiet dir w = refl

pub get_recordings-IsQuiet : IsQuiet get_recordings
unfolding IsQuiet get_recordings
get_recordings-IsQuiet w = refl

pub set_recordings-IsQuiet : (c : Channel) → IsQuiet (set_recordings c)
unfolding IsQuiet set_recordings
set_recordings-IsQuiet c w = refl

pub wrapped-IsQuiet : {A : Type 0} (text : String) (m : Io A) → IsQuiet m → IsQuiet (wrapped text m)
unfolding IsQuiet wrapped
wrapped-IsQuiet text m h w = ground (arith, h w)

pub run_with-IsQuiet : (os : Os) (input : String) (c : Command) → IsQuiet (run_with os input c)
unfolding IsQuiet run_with
run_with-IsQuiet os input c w = omega (arith, result_events-append w.acts (run_command c ∷ []))

pub run-IsQuiet : (os : Os) (c : Command) → IsQuiet (run os c)
unfolding run
run-IsQuiet os c = run_with-IsQuiet os "" c

-- Publishing a result.
pub emit_event-Publishes : (d : ResultData) → Publishes (emit_event (result d))
unfolding Publishes emit_event
emit_event-Publishes d w = omega (arith, result_events-append w.acts (event (result d) ∷ []))

module _ {A B : Type 0} (m : Io A) (f : A → Io B) where
  pub >>=-IsQuiet : IsQuiet m → ((a : A) → IsQuiet (f a)) → IsQuiet (m >>= f)
  unfolding IsQuiet ◌>>=◌
  >>=-IsQuiet h k w = elim (Result-cases (m w).0) [
    | inl (a, e) ↦ ground (arith, h w, k a (m w).1)
    | inr (inl (e, q)) ↦ ground (arith, h w)
    | inr (inr q) ↦ ground (arith, h w)
  ]

  pub >>=-Publishes : IsQuiet m → ((a : A) → Publishes (f a)) → Publishes (m >>= f)
  unfolding IsQuiet Publishes ◌>>=◌
  >>=-Publishes h k w = elim (Result-cases (m w).0) [
    | inl (a, e) ↦ ground (arith, h w, k a (m w).1)
    | inr (inl (e, q)) ↦ ground (arith, h w)
    | inr (inr q) ↦ ground (arith, h w)
  ]

pub wrapped-Publishes :
    (A : Type 0) (text : String) (m : Io A) → Publishes m → Publishes (wrapped text m)
unfolding Publishes wrapped
wrapped-Publishes A text m h w = elim (Result-cases (m w).0) [
  | inl (a, e) ↦ ground (arith, h w)
  | inr (inl (x, e)) ↦ ground (arith, h w)
  | inr (inr e) ↦ ground (arith, h w)
]

module _ {A : Type 0} (b : Bool) (m n : Io A) where
  pub if-IsQuiet : IsQuiet m → IsQuiet n → IsQuiet (if b then m else n)
  unfolding IsQuiet
  if-IsQuiet h k w = ground (arith, h w, k w)

  pub if-Publishes : Publishes m → Publishes n → Publishes (if b then m else n)
  unfolding Publishes
  if-Publishes h k w = ground (arith, h w, k w)

pub wait-IsQuiet : (d : ℤ) → IsQuiet (wait d)
unfolding IsQuiet wait
wait-IsQuiet d w = omega (arith, result_events-append w.acts (sleep d ∷ []))

pub send_signal-IsQuiet : (p n : ℤ) → IsQuiet (send_signal p n)
unfolding IsQuiet send_signal
send_signal-IsQuiet p n w = omega (arith, result_events-append w.acts (signal p n ∷ []))

pub try_files-IsQuiet : (f : Files → Option Error × Files) → IsQuiet (try_files f)
unfolding try_files
try_files-IsQuiet f = >>=-IsQuiet get_files _ get_files-IsQuiet (λ fs.
    >>=-IsQuiet (change_files (λ _. (f fs).1)) _ (change_files-IsQuiet _)
      (λ _. fail_if-IsQuiet (λ e. e) (f fs).0))

pub ruleset quiet = (
  pure-IsQuiet, fail-IsQuiet, fail_if-IsQuiet, get_job-IsQuiet, wrapped-IsQuiet, run_with-IsQuiet,
  run-IsQuiet, get_files-IsQuiet, change_files-IsQuiet, lift-IsQuiet, set_job-IsQuiet,
  get_target_pids-IsQuiet, set_target_pids-IsQuiet, get_directory-IsQuiet, set_directory-IsQuiet,
  get_recordings-IsQuiet, set_recordings-IsQuiet, wait-IsQuiet, send_signal-IsQuiet,
  try_files-IsQuiet, >>=-IsQuiet, if-IsQuiet,
)

pub ruleset publishes =
    (quiet, fail-Publishes, emit_event-Publishes, wrapped-Publishes, >>=-Publishes, if-Publishes)
