-- ===== src/Pids/Serial.antt =====
-- `ProfilePIDs` over actions: the schedule in which each goroutine ends before the next one starts.
-- The other schedules are in Interleavings.
use application_profiler.Base.{
  Bool, true, false, Result, ok, err, panic, Error, Option, none, some, List, [], ◌∷◌, String,
  if◌then◌else◌,
}
use application_profiler.Base.Int.{ℤ}
use application_profiler.World.{World, Event, act, event, sleep}
use application_profiler.Io.{Io}
use application_profiler.Pids.{profile_pids}

abbrev pub prepend :
    Option Error → Option (List (Option Error)) × World → Option (List (Option Error)) × World
prepend r (some errs, w) = (some (r ∷ errs), w)
prepend r (none, w) = (none, w)

abbrev pub emit_all : List Event → World → World
emit_all [] w = w
emit_all (e ∷ es) w = emit_all es (act (event e) w)

-- An `error` that is returned alone.
abbrev pub returning : Option Error → Result (Unit {0})
returning none = ok tt
returning (some e) = err e

module _ (text : Error → String) (delay : ℤ) (profile : String → Io (Unit {0})) where
  abbrev pub before_next : Bool → World → World
  before_next first w = if first then w else act (sleep delay) w

  -- The loop that starts the goroutines, with what they return; none if one of them panics.
  unfoldable pub each_pid : Bool → List String → World → Option (List (Option Error)) × World
  each_pid first [] w = (some [], w)
  each_pid first (pid ∷ pids) w =
      let v = profile pid (before_next first w) in
      elim v.0 [
        | ok _ ↦ prepend none (each_pid false pids v.1)
        | err e ↦ prepend (some e) (each_pid false pids v.1)
        | panic ↦ (none, v.1)
      ]

  unfoldable pub profile_serially : List String → Io (Unit {0})
  unfolding each_pid profile_pids
  profile_serially pids w =
      let v = each_pid true pids w in
      elim v.0 [
        | some errs ↦
            let verdict = profile_pids text pids errs in
            (returning verdict.0, emit_all verdict.1 v.1)
        | none ↦ (panic, v.1)
      ]
