-- ===== src/Agent/Lifecycle.antt =====
-- The life of the agent's process: the goroutines of cmd/agent/main.go, in any order of their steps.
pub mod Ends
pub mod Signalled
use application_profiler.Base.{
  ℕ, ◌+◌, ◌≤◌, ◌≡◌, ◌⊎◌, Bool, true, false, Option, none, some, if◌then◌else◌,
}

-- Where `main` stands. `lingering` is the loop of `handleForEnding`, with the time at which its timer
-- fires; `expired` is behind the receipt from `fired`, before `CleanUp`, and `leaving` begins with it,
-- with the time at which `CleanUp` returns, or none if it never does.
pub data MainPhase : Type 0 where
  starting profiling : MainPhase
  lingering : ℕ → MainPhase
  expired : MainPhase
  leaving : Option ℕ → MainPhase

-- Where the goroutine of `handleSignals` stands: `stopping` is before `CleanUp`, `stopped` begins with
-- it, with the time at which it returns, if it does, and `gone` is behind the send to `done`.
pub data HandlerPhase : Type 0 where
  listening stopping : HandlerPhase
  stopped : Option ℕ → HandlerPhase
  gone : HandlerPhase

-- `signalled` and `done` say that a value is in the channel of that name, `has_profiler` that `p` is
-- not nil, `exited` that the process is gone, and `aborted` that a panic or the package `cli` ended it.
-- `clean_ups` counts the calls of `CleanUp`, `delivered` says that a signal came, and `ended` is the
-- time at which `runApp` returned.
pub record Agent : Type 0 where
  pub phase : MainPhase
  pub handler : HandlerPhase
  pub signalled : Bool
  pub done : Bool
  pub has_profiler : Bool
  pub exited : Bool
  pub aborted : Bool
  pub clean_ups : ℕ
  pub delivered : Bool
  pub ended : Option ℕ
  pub now : ℕ

abbrev pub fresh : Agent
fresh = record {
  phase = starting;
  handler = listening;
  signalled = false;
  done = false;
  has_profiler = false;
  exited = false;
  aborted = false;
  clean_ups = 0;
  delivered = false;
  ended = none;
  now = 0;
}

-- `if p != nil { p.CleanUp(profilingJob) }`
abbrev pub clean : Agent → Agent
clean s = record s { clean_ups = if s.has_profiler then s.clean_ups + 1 else s.clean_ups }

-- `runApp` has returned, and `handleForEnding` starts a timer for the grace period.
abbrev pub linger : ℕ → Agent → Agent
linger grace s = record s { phase = lingering (s.now + grace); ended = some s.now }

abbrev pub abort : Agent → Agent
abort s = record s { exited = true; aborted = true }

-- `takes now` is how long a call of `CleanUp` takes that begins at that time, none if it blocks for
-- ever.
module _ (grace : ℕ) (takes : ℕ → Option ℕ) where
  -- The time at which `CleanUp` returns, at once where there is no profiler.
  abbrev pub return_time : Agent → Option ℕ
  return_time s =
      if s.has_profiler
      then elim (takes s.now) [ none ↦ none | some d ↦ some (s.now + d) ]
      else some s.now

  -- One step of the process, of the system or of time, with the grace period that the timer gets.
  -- Only the main goroutine, the one that handles signals, and the one that waits for `done` take
  -- steps. `fail_run` is a panic under `runApp`, or `cli` that ends the process for an error there;
  -- `fail_at_end` and `fail_on_signal` are panics of `CleanUp`.
  pub data Step (s : Agent) : Agent → Type 0 where
    tick : s.exited ≡ false → Step s (record s { now = s.now + 1 })
    terminate : s.exited ≡ false → Step s (record s { signalled = true; delivered = true })
    begin :
        s.exited ≡ false
        → s.phase ≡ starting
        → Step s (record s { phase = profiling; has_profiler = true })
    refuse : s.exited ≡ false → s.phase ≡ starting → Step s (linger grace s)
    finish : s.exited ≡ false → s.phase ≡ profiling → Step s (linger grace s)
    fail_run : s.exited ≡ false → (s.phase ≡ starting) ⊎ (s.phase ≡ profiling) → Step s (abort s)
    expire :
        (deadline : ℕ)
        → s.exited ≡ false
        → s.phase ≡ lingering deadline
        → deadline ≤ s.now
        → Step s (record s { phase = expired })
    clean_at_end :
        s.exited ≡ false
        → s.phase ≡ expired
        → Step s (record (clean s) { phase = leaving (return_time s) })
    return :
        (end : ℕ)
        → s.exited ≡ false
        → s.phase ≡ leaving (some end)
        → end ≤ s.now
        → Step s (record s { exited = true })
    fail_at_end : (end : Option ℕ) → s.exited ≡ false → s.phase ≡ leaving end → Step s (abort s)
    catch :
        s.exited ≡ false
        → s.handler ≡ listening
        → s.signalled ≡ true
        → Step s (record s { handler = stopping; signalled = false })
    clean_on_signal :
        s.exited ≡ false
        → s.handler ≡ stopping
        → Step s (record (clean s) { handler = stopped (return_time s) })
    mark_done :
        (end : ℕ)
        → s.exited ≡ false
        → s.handler ≡ stopped (some end)
        → end ≤ s.now
        → s.done ≡ false
        → Step s (record s { handler = gone; done = true })
    fail_on_signal :
        (end : Option ℕ) → s.exited ≡ false → s.handler ≡ stopped end → Step s (abort s)
    exit : s.exited ≡ false → s.done ≡ true → Step s (record s { done = false; exited = true })

  pub data Reach (s : Agent) : Agent → Type 0 where
    here : Reach s s
    next : {t u : Agent} → Reach s t → Step t u → Reach s u
