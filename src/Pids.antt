-- ===== src/Pids.antt =====
-- internal/agent/profiler/common/pids.go: one tool run over several processes at once.
-- The goroutines and the loop that starts them are the steps of a relation, so every order in which
-- they can run is covered; what follows `wg.Wait` is the function `verdict`.
pub mod Interleavings
pub mod Verdict
pub mod Outcome
pub mod Serial
pub mod Published
use application_profiler.Base.{
  ℕ, zero, suc, ◌+◌, ◌-◌, ◌≡◌, ◌<◌, Bool, true, false, ◌&&◌, List, [], ◌∷◌, Option, none, some,
  String, ◌<>◌, Error, PidErrors, nil, failed, pid_errors, errorf, length, get_elem?, set,
  replicate, ltb, eqb, all, if◌then◌else◌, map,
}
use application_profiler.Base.Digits.{itoa}
use application_profiler.Base.Text.{join}
use application_profiler.World.{Event, notice}

-- An element of `errs`, and whether its goroutine has written it.
pub data Slot : Type 0 where
  waiting : Slot
  done : Option Error → Slot

abbrev pub is_done : Slot → Bool
is_done waiting = false
is_done (done r) = true

-- How many goroutines the loop has started, how often it slept, and the slots of `errs`.
pub record Group : Type 0 where
  pub started : ℕ
  pub sleeps : ℕ
  pub errs : List Slot

unfoldable pub start : List String → Group
start pids = record { started = 0; sleeps = 0; errs = replicate (length pids) waiting }

-- `outcome i` is what `profile(pids[i])` returns, if it returns at all, which `returns i` says. A panic
-- in it ends the process, and is not a step.
module _ (pids : List String) (outcome : ℕ → Option Error) (returns : ℕ → Bool) where
  -- The loop starts the next goroutine, after a delay unless it is the first; or a goroutine that
  -- was started, and whose call returns, writes its slot.
  pub data Step (s : Group) (t : Group) : Type 0 where
    launch :
        s.started < length pids
        → t ≡ record s {
          started = s.started + 1;
          sleeps = if ltb 0 s.started then s.sleeps + 1 else s.sleeps;
        }
        → Step s t
    finish :
        (i : ℕ)
        → i < s.started
        → returns i ≡ true
        → get_elem? s.errs i ≡ some waiting
        → t ≡ record s { errs = set s.errs i (done (outcome i)) }
        → Step s t

  pub data Reach : Group → Type 0 where
    here : Reach (start pids)
    next : {s t : Group} → Reach s → Step s t → Reach t

  -- The loop is over and `wg.Wait` returns.
  unfoldable pub IsFinal : Group → Type 0
  IsFinal s = (s.started ≡ length pids) × (all is_done s.errs ≡ true)

-- The errors in the slots.
abbrev pub returned : List Slot → List (Option Error)
returned [] = []
returned (waiting ∷ s) = none ∷ returned s
returned (done r ∷ s) = r ∷ returned s

-- The loop that builds `failed`.
unfoldable pub collect_failed : List String → List (Option Error) → PidErrors
collect_failed [] errs = nil
collect_failed (pid ∷ pids) [] = nil
collect_failed (pid ∷ pids) (none ∷ errs) = collect_failed pids errs
collect_failed (pid ∷ pids) (some e ∷ errs) = failed pid e (collect_failed pids errs)

-- `len(failed)`
abbrev pub count_errors : PidErrors → ℕ
count_errors nil = 0
count_errors (failed pid e es) = suc (count_errors es)

-- `text` renders an error, as the verb `%s` does.
module _ (text : Error → String) where
  unfoldable pub reasons : PidErrors → List String
  reasons nil = []
  reasons (failed pid e es) = ("PID " <> (pid <> (": " <> text e))) ∷ reasons es

  -- `pidErrors.Error`
  unfoldable pub pid_errors_text : PidErrors → String
  unfolding reasons join
  pid_errors_text es = join (reasons es) "; "

  -- The rest of `ProfilePIDs` after the wait: its error, if any, and the notice that it logs.
  unfoldable pub verdict : List String → List (Option Error) → Option Error × List Event
  verdict pids errs =
      let es = collect_failed pids errs in
      let n = count_errors es in
      if eqb n 0 then (none, []) else if eqb n (length pids) then (some (pid_errors es), []) else (
        none,
        notice (
              "Profiled "
              <> (itoa (length pids - n)
                  <> (" of " <> (itoa (length pids) <> (" PIDs; skipped " <> pid_errors_text es)))))
            ∷ [],
      )

  -- `ProfilePIDs`, given the slots when the goroutines are done.
  unfoldable pub profile_pids : List String → List (Option Error) → Option Error × List Event
  profile_pids [] errs = (some (errorf "no PIDs to profile"), [])
  profile_pids (pid ∷ pids) errs = verdict (pid ∷ pids) errs
