-- ===== src/Agent/Lifecycle/Ends.antt =====
-- How the process of the agent ends.
use application_profiler.Base.{
  ℕ, ◌+◌, ◌≤◌, ◌≡◌, true, false, Option, none, some, if◌then◌else◌, arith, inl, inr, Bool-cases,
}
use application_profiler.Agent.Lifecycle.{
  Agent, MainPhase, HandlerPhase, starting, profiling, lingering, expired, leaving, listening,
  stopping, stopped, gone, fresh, Step, tick, terminate, begin, refuse, finish, fail_run, expire,
  clean_at_end, return, fail_at_end, catch, clean_on_signal, mark_done, fail_on_signal, exit, Reach,
  here, next,
}

-- The calls of `CleanUp` that the goroutines have begun, where there is a profiler.
abbrev main_calls : MainPhase → ℕ
main_calls starting = 0
main_calls profiling = 0
main_calls (lingering d) = 0
main_calls expired = 0
main_calls (leaving r) = 1

abbrev handler_calls : HandlerPhase → ℕ
handler_calls listening = 0
handler_calls stopping = 0
handler_calls (stopped r) = 1
handler_calls gone = 1

-- What is known of the time at which `runApp` returned: the timer of a lingering process fires when
-- the grace period has passed since, and later the period has passed.
abbrev Timed : ℕ → MainPhase → Option ℕ → ℕ → Type 0
Timed grace starting ended now = ended ≡ none
Timed grace profiling ended now = ended ≡ none
Timed grace (lingering d) none now = ⊥
Timed grace (lingering d) (some t) now = d ≡ t + grace
Timed grace expired none now = ⊥
Timed grace expired (some t) now = t + grace ≤ now
Timed grace (leaving r) none now = ⊥
Timed grace (leaving r) (some t) now = t + grace ≤ now

record Inv (grace : ℕ) (s : Agent) : Type 0 where
  timed : Timed grace s.phase s.ended s.now
  counted : s.clean_ups ≤ main_calls s.phase + handler_calls s.handler
  -- Without a signal the handler is idle, and only the main goroutine ends the process.
  idle : s.delivered ≡ false → s.handler ≡ listening
  unmarked : s.delivered ≡ false → s.done ≡ false
  nothing : s.delivered ≡ false → s.signalled ≡ false
  left : s.delivered ≡ false → s.aborted ≡ false → s.exited ≡ true → main_calls s.phase ≡ 1
  cleaned : s.delivered ≡ false → s.clean_ups ≡ (if s.has_profiler then main_calls s.phase else 0)

module _ (grace : ℕ) (takes : ℕ → Option ℕ) where
  Step-Inv : {s t : Agent} → Step grace takes s t → Inv grace s → Inv grace t
  Step-Inv {s} (tick e) inv = ground arith
  Step-Inv {s} (terminate e) inv = ground arith
  Step-Inv {s} (begin e p) inv = ground arith
  Step-Inv {s} (refuse e p) inv = ground arith
  Step-Inv {s} (finish e p) inv = ground arith
  Step-Inv {s} (fail_run e p) inv = ground arith
  Step-Inv {s} (expire d e p k) inv = ground arith
  Step-Inv {s} (clean_at_end e p) inv = ground arith
  Step-Inv {s} (return r e p k) inv = ground arith
  Step-Inv {s} (fail_at_end r e p) inv = ground arith
  Step-Inv {s} (catch e p q) inv = ground arith
  Step-Inv {s} (clean_on_signal e p) inv = ground arith
  Step-Inv {s} (mark_done r e p k q) inv = ground arith
  Step-Inv {s} (fail_on_signal r e p) inv = ground arith
  Step-Inv {s} (exit e p) inv = ground arith

  fresh-Inv : Inv grace fresh
  fresh-Inv = ground arith

  Reach-Inv : {s : Agent} → Reach grace takes fresh s → Inv grace s
  Reach-Inv here = fresh-Inv
  Reach-Inv (next r st) = Step-Inv st (Reach-Inv r)

-- The time was taken, and the grace period has passed since.
abbrev pub Elapsed : ℕ → Option ℕ → ℕ → Type 0
Elapsed grace none now = ⊥
Elapsed grace (some t) now = t + grace ≤ now

elapsed :
    (grace : ℕ) (s : Agent)
    → Timed grace s.phase s.ended s.now
    → main_calls s.phase ≡ 1
    → Elapsed grace s.ended s.now
elapsed grace s timed last = ground arith

module _ (grace : ℕ) (takes : ℕ → Option ℕ) where
  -- If the process is gone, no signal was delivered, and neither a panic nor `cli` ended it, the grace
  -- period has passed since `runApp` returned, and the profiler, if there was one, was cleaned up
  -- exactly once.
  pub Reach-Elapsed :
      {s : Agent}
      → Reach grace takes fresh s
      → s.exited ≡ true
      → s.delivered ≡ false
      → s.aborted ≡ false
      → Elapsed grace s.ended s.now × (s.clean_ups ≡ (if s.has_profiler then 1 else 0))
  Reach-Elapsed {s} r over quiet whole =
      let inv = Reach-Inv grace takes r in
      let last = inv.left quiet whole over in
      (elapsed grace s inv.timed last, ground (arith, inv.cleaned quiet))

  -- `CleanUp` is called at most twice, and at most once where no signal was delivered.
  pub Reach-clean_ups :
      {s : Agent} → Reach grace takes fresh s → s.clean_ups ≤ (if s.delivered then 2 else 1)
  Reach-clean_ups {s} r =
      let inv = Reach-Inv grace takes r in
      elim (Bool-cases s.delivered) [ inl e ↦ ground arith | inr e ↦ ground (arith, inv.cleaned e) ]
