-- ===== src/Io/Kept.antt =====
-- Actions that leave the running job as it is.
use application_profiler.Base.{
  ◌≡◌, refl, Result, Error, Option, none, some, List, String, Bool, if◌then◌else◌, ◌∙◌, inl, inr,
  Result-cases,
}
use application_profiler.World.{World, Channel, Files, Command}
use application_profiler.Os.{Os}
use application_profiler.Io.{
  Io, pure, fail, ◌>>=◌, fail_if, get_job, run, run_with, get_files, change_files, lift,
  get_target_pids, try_files, set_target_pids, set_directory, set_recordings,
}

unfoldable pub KeepsJob : {A : Type 0} → Io A → Type 0
KeepsJob m = (w : World) → (m w).1.job ≡ w.job

pub pure-KeepsJob : {A : Type 0} (a : A) → KeepsJob (pure a)
unfolding KeepsJob pure
pure-KeepsJob a w = refl

pub fail-KeepsJob : (A : Type 0) (e : Error) → KeepsJob (fail {A = A} e)
unfolding KeepsJob fail
fail-KeepsJob A e w = refl

pub fail_if-KeepsJob : (f : Error → Error) (o : Option Error) → KeepsJob (fail_if f o)
unfolding KeepsJob fail_if pure fail
fail_if-KeepsJob f none w = refl
fail_if-KeepsJob f (some e) w = refl

pub get_job-KeepsJob : KeepsJob get_job
unfolding KeepsJob get_job
get_job-KeepsJob w = refl

pub get_files-KeepsJob : KeepsJob get_files
unfolding KeepsJob get_files
get_files-KeepsJob w = refl

pub change_files-KeepsJob : (f : Files → Files) → KeepsJob (change_files f)
unfolding KeepsJob change_files
change_files-KeepsJob f w = refl

pub lift-KeepsJob : (A : Type 0) (r : Result A) → KeepsJob (lift r)
unfolding KeepsJob lift
lift-KeepsJob A r w = refl

pub get_target_pids-KeepsJob : KeepsJob get_target_pids
unfolding KeepsJob get_target_pids
get_target_pids-KeepsJob w = refl

pub set_target_pids-KeepsJob : (pids : List String) → KeepsJob (set_target_pids pids)
unfolding KeepsJob set_target_pids
set_target_pids-KeepsJob pids w = refl

pub set_directory-KeepsJob : (dir : String) → KeepsJob (set_directory dir)
unfolding KeepsJob set_directory
set_directory-KeepsJob dir w = refl

pub set_recordings-KeepsJob : (c : Channel) → KeepsJob (set_recordings c)
unfolding KeepsJob set_recordings
set_recordings-KeepsJob c w = refl

pub run-KeepsJob : (os : Os) (c : Command) → KeepsJob (run os c)
unfolding KeepsJob run run_with
run-KeepsJob os c w = refl

pub >>=-KeepsJob :
    {A B : Type 0} (m : Io A) (f : A → Io B)
    → KeepsJob m
    → ((a : A) → KeepsJob (f a))
    → KeepsJob (m >>= f)
unfolding KeepsJob ◌>>=◌
>>=-KeepsJob m f h k w = elim (Result-cases (m w).0) [
  | inl (a, e) ↦ rw (e, ◌>>=◌) (k a (m w).1 ∙ h w)
  | inr (inl (x, e)) ↦ rw (e, ◌>>=◌) (h w)
  | inr (inr e) ↦ rw (e, ◌>>=◌) (h w)
]

pub if-KeepsJob :
    {A : Type 0} (b : Bool) (m n : Io A) → KeepsJob m → KeepsJob n → KeepsJob (if b then m else n)
unfolding KeepsJob
if-KeepsJob Bool.true m n h k w = h w
if-KeepsJob Bool.false m n h k w = k w

pub try_files-KeepsJob : (f : Files → Option Error × Files) → KeepsJob (try_files f)
unfolding try_files
try_files-KeepsJob f = >>=-KeepsJob get_files _ get_files-KeepsJob (λ fs.
    >>=-KeepsJob (change_files (λ _. (f fs).1)) _ (change_files-KeepsJob _)
      (λ _. fail_if-KeepsJob (λ e. e) (f fs).0))

pub ruleset keeping = (
  pure-KeepsJob, fail-KeepsJob, fail_if-KeepsJob, get_job-KeepsJob, get_files-KeepsJob,
  change_files-KeepsJob, lift-KeepsJob, get_target_pids-KeepsJob, set_target_pids-KeepsJob,
  set_directory-KeepsJob, set_recordings-KeepsJob, run-KeepsJob, try_files-KeepsJob, >>=-KeepsJob,
  if-KeepsJob,
)
