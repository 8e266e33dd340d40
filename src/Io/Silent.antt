-- ===== src/Io/Silent.antt =====
-- Actions that send no event.
use application_profiler.Base.{
  ◌≡◌, refl, Result, List, [], ◌∷◌, ◌++◌, Bool, if◌then◌else◌, ◌∙◌, inl, inr, Result-cases,
  append-nil,
}
use application_profiler.Base.Int.{ℤ}
use application_profiler.World.{
  World, Channel, Files, Command, Event, Act, event, sleep, run_command, signal,
}
use application_profiler.Os.{Os}
use application_profiler.Io.{
  Io, pure, ◌>>=◌, get_job, run, run_with, change_files, lift, get_target_pids, get_recordings,
  set_recordings, wait,
}

-- The events among the acts.
abbrev pub events : List Act → List Event
events [] = []
events (event e ∷ acts) = e ∷ events acts
events (sleep d ∷ acts) = events acts
events (run_command c ∷ acts) = events acts
events (signal p n ∷ acts) = events acts

pub events-append : (xs ys : List Act) → events (xs ++ ys) ≡ events xs ++ events ys
events-append [] ys = refl
events-append (event e ∷ xs) ys = cc (events-append xs ys)
events-append (sleep d ∷ xs) ys = events-append xs ys
events-append (run_command c ∷ xs) ys = events-append xs ys
events-append (signal p n ∷ xs) ys = events-append xs ys

unfoldable pub IsSilent : {A : Type 0} → Io A → Type 0
IsSilent m = (w : World) → events (m w).1.acts ≡ events w.acts

pub pure-IsSilent : {A : Type 0} (a : A) → IsSilent (pure a)
unfolding IsSilent pure
pure-IsSilent a w = refl

pub get_job-IsSilent : IsSilent get_job
unfolding IsSilent get_job
get_job-IsSilent w = refl

pub change_files-IsSilent : (f : Files → Files) → IsSilent (change_files f)
unfolding IsSilent change_files
change_files-IsSilent f w = refl

pub lift-IsSilent : (A : Type 0) (r : Result A) → IsSilent (lift r)
unfolding IsSilent lift
lift-IsSilent A r w = refl

pub get_target_pids-IsSilent : IsSilent get_target_pids
unfolding IsSilent get_target_pids
get_target_pids-IsSilent w = refl

pub get_recordings-IsSilent : IsSilent get_recordings
unfolding IsSilent get_recordings
get_recordings-IsSilent w = refl

pub set_recordings-IsSilent : (c : Channel) → IsSilent (set_recordings c)
unfolding IsSilent set_recordings
set_recordings-IsSilent c w = refl

pub wait-IsSilent : (d : ℤ) → IsSilent (wait d)
unfolding IsSilent wait
wait-IsSilent d w = events-append w.acts (sleep d ∷ []) ∙ append-nil (events w.acts)

pub run-IsSilent : (os : Os) (c : Command) → IsSilent (run os c)
unfolding IsSilent run run_with
run-IsSilent os c w = events-append w.acts (run_command c ∷ []) ∙ append-nil (events w.acts)

pub >>=-IsSilent :
    {A B : Type 0} (m : Io A) (f : A → Io B)
    → IsSilent m
    → ((a : A) → IsSilent (f a))
    → IsSilent (m >>= f)
unfolding IsSilent ◌>>=◌
>>=-IsSilent m f h k w = elim (Result-cases (m w).0) [
  | inl (a, e) ↦ rw (e, ◌>>=◌) (k a (m w).1 ∙ h w)
  | inr (inl (x, e)) ↦ rw (e, ◌>>=◌) (h w)
  | inr (inr e) ↦ rw (e, ◌>>=◌) (h w)
]

pub if-IsSilent :
    {A : Type 0} (b : Bool) (m n : Io A) → IsSilent m → IsSilent n → IsSilent (if b then m else n)
unfolding IsSilent
if-IsSilent Bool.true m n h k w = h w
if-IsSilent Bool.false m n h k w = k w

pub ruleset silence = (
  pure-IsSilent, get_job-IsSilent, change_files-IsSilent, lift-IsSilent, get_target_pids-IsSilent,
  get_recordings-IsSilent, set_recordings-IsSilent, wait-IsSilent, run-IsSilent, >>=-IsSilent,
  if-IsSilent,
)
