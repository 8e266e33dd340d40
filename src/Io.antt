-- ===== src/Io.antt =====
-- Actions of the agent: an action changes the world and returns, fails or panics. A failed action
-- keeps what it changed before it failed.
pub mod Results
pub mod Binding
pub mod Kept
pub mod Silent
use application_profiler.Base.{
  Result, ok, err, panic, Error, wrap, Option, none, some, String, if◌then◌else◌, Bool, ◌==◌, List,
  [], ◌∷◌, lookup,
}
use application_profiler.Job.{ProfilingJob}
use application_profiler.Base.Int.{ℤ}
use application_profiler.Os.{Os, Completed}
use application_profiler.World.{
  World, Channel, Files, Command, Act, Event, act, event, run_command, sleep, signal,
}

abbrev pub Io : Type 0 → Type 0
Io A = World → Result A × World

unfoldable pub pure : {A : Type 0} → A → Io A
pure a w = (ok a, w)

unfoldable pub fail : {A : Type 0} → Error → Io A
fail e w = (err e, w)

infixl 5 ◌>>=◌ ◌>>◌
unfoldable pub ◌>>=◌ : {A B : Type 0} → Io A → (A → Io B) → Io B
◌>>=◌ m f w = elim ((m w).0) [
  | ok a ↦ f a (m w).1
  | err e ↦ (err e, (m w).1)
  | panic ↦ (panic, (m w).1)
]

abbrev pub ◌>>◌ : {B : Type 0} → Io (Unit {0}) → Io B → Io B
m >> k = m >>= λ _. k

-- `if err != nil { return errors.Wrap(err, text) }`
unfoldable pub wrapped : {A : Type 0} → String → Io A → Io A
wrapped text m w = elim ((m w).0) [
  | ok a ↦ (ok a, (m w).1)
  | err e ↦ (err (wrap text e), (m w).1)
  | panic ↦ (panic, (m w).1)
]

-- `if err != nil { return … }`, where `f` makes the error that is returned.
unfoldable pub fail_if : (Error → Error) → Option Error → Io (Unit {0})
fail_if f none = pure tt
fail_if f (some e) = fail (f e)

-- `if !test { return e }`
abbrev pub require : Bool → Error → Io (Unit {0})
require test e = if test then pure tt else fail e

unfoldable pub get_job : Io ProfilingJob
get_job w = (ok w.job, w)

unfoldable pub set_job : ProfilingJob → Io (Unit {0})
set_job job w = (ok tt, record w { job = job })

unfoldable pub get_target_pids : Io (List String)
get_target_pids w = (ok w.target_pids, w)

unfoldable pub set_target_pids : List String → Io (Unit {0})
set_target_pids pids w = (ok tt, record w { target_pids = pids })

unfoldable pub get_directory : Io String
get_directory w = (ok w.directory, w)

unfoldable pub set_directory : String → Io (Unit {0})
set_directory dir w = (ok tt, record w { directory = dir })

unfoldable pub get_recordings : Io Channel
get_recordings w = (ok w.recordings, w)

unfoldable pub set_recordings : Channel → Io (Unit {0})
set_recordings c w = (ok tt, record w { recordings = c })

unfoldable pub emit_event : Event → Io (Unit {0})
emit_event e w = (ok tt, act (event e) w)

module _ (os : Os) where
  -- `cmd.Run()`
  unfoldable pub run_with : String → Command → Io Completed
  run_with input c w =
      let out = os.exec c input w.files in
      (ok out, record (act (run_command c) w) { files = out.files })

  unfoldable pub run : Command → Io Completed
  unfolding run_with
  run c = run_with "" c

-- Reading and changing the files.
unfoldable pub get_files : Io Files
get_files w = (ok w.files, w)

unfoldable pub change_files : (Files → Files) → Io (Unit {0})
change_files f w = (ok tt, record w { files = f w.files })

-- A call that returns a value and an error, or panics.
unfoldable pub lift : {A : Type 0} → Result A → Io A
lift r w = (r, w)

-- A change of the files that can fail.
unfoldable pub try_files : (Files → Option Error × Files) → Io (Unit {0})
unfolding fail_if change_files ◌>>=◌ get_files
try_files f = get_files >>= λ fs. change_files (λ _. (f fs).1) >> fail_if (λ e. e) (f fs).0

-- Time passes.
unfoldable pub wait : ℤ → Io (Unit {0})
wait d w = (ok tt, act (sleep d) w)

unfoldable pub send_signal : ℤ → ℤ → Io (Unit {0})
send_signal p n w = (ok tt, act (signal p n) w)
