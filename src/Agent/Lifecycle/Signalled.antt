-- ===== src/Agent/Lifecycle/Signalled.antt =====
-- How a signal ends the process of the agent, where every call of `CleanUp` returns.
use application_profiler.Base.{
  ℕ, zero, suc, ◌+◌, ◌-◌, ◌≤◌, ◌≡◌, refl, subst, true, false, Option, none, some, arith, inl, inr,
  Bool-cases,
}
use application_profiler.Agent.Lifecycle.{
  Agent, HandlerPhase, listening, stopping, stopped, gone, fresh, return_time, Step, tick,
  terminate, begin, refuse, finish, fail_run, expire, clean_at_end, return, fail_at_end, catch,
  clean_on_signal, mark_done, fail_on_signal, exit, Reach, here, next,
}

-- The process ends from here after that much time at most, and the main goroutine does not move on.
abbrev pub Exits : ℕ → (ℕ → Option ℕ) → ℕ → Agent → Type 0
Exits grace takes d s =
    (t : Agent) × Reach grace takes s t
    × (t.exited ≡ true)
    × (t.now ≤ s.now + d)
    × (t.phase ≡ s.phase)

join :
    {grace : ℕ} {takes : ℕ → Option ℕ} {s t u : Agent}
    → Reach grace takes s t
    → Reach grace takes t u
    → Reach grace takes s u
join r here = r
join r (next q st) = next (join r q) st

-- `CleanUp` returns within that time.
Until : ℕ → Option ℕ → ℕ → Type 0
Until d none now = ⊥
Until d (some end) now = end ≤ now + d

module _ (grace : ℕ) (takes : ℕ → Option ℕ) (d : ℕ)
    (returns : (now : ℕ) → (k : ℕ) × (takes now ≡ some k) × (k ≤ d)) where
  -- A delivered signal is in its channel until the handler takes it, and `done` holds a value from
  -- the handler's last step to the end of the process.
  Pending : HandlerPhase → Agent → Type 0
  Pending listening s = (s.delivered ≡ true → s.signalled ≡ true) × (s.done ≡ false)
  Pending stopping s = s.done ≡ false
  Pending (stopped r) s = Until d r s.now × (s.done ≡ false)
  Pending gone s = s.exited ≡ false → s.done ≡ true

  IsPending : Agent → Type 0
  IsPending s = Pending s.handler s

  return_time-Until : (s : Agent) → Until d (return_time grace takes s) s.now
  unfolding Until
  return_time-Until s =
      let (k, e, small) = returns s.now in
      elim (Bool-cases s.has_profiler) [
        | inl q ↦ rw (q, e) (omega arith)
        | inr q ↦ rw q (omega arith)
      ]

  later-Until : (r : Option ℕ) (now : ℕ) → Until d r now → Until d r (now + 1)
  unfolding Until
  later-Until none now h = h
  later-Until (some end) now h = omega arith

  tick-Pending :
      (h : HandlerPhase) (s : Agent) → Pending h s → Pending h (record s { now = s.now + 1 })
  unfolding Pending
  tick-Pending listening s p = p
  tick-Pending stopping s p = p
  tick-Pending (stopped r) s p = (later-Until r s.now p.0, p.1)
  tick-Pending gone s p = p

  Step-IsPending : {s t : Agent} → Step grace takes s t → IsPending s → IsPending t
  unfolding IsPending Pending
  Step-IsPending {s} (tick e) inv = tick-Pending s.handler s inv
  Step-IsPending {s} (terminate e) inv = ground arith
  Step-IsPending {s} (begin e p) inv = ground arith
  Step-IsPending {s} (refuse e p) inv = ground arith
  Step-IsPending {s} (finish e p) inv = ground arith
  Step-IsPending {s} (fail_run e p) inv = ground arith
  Step-IsPending {s} (expire d e p k) inv = ground arith
  Step-IsPending {s} (clean_at_end e p) inv = ground arith
  Step-IsPending {s} (return r e p k) inv = ground arith
  Step-IsPending {s} (fail_at_end r e p) inv = ground arith
  Step-IsPending {s} (catch e p q) inv = ground arith
  Step-IsPending {s} (clean_on_signal e p) inv = (return_time-Until s, ground arith)
  Step-IsPending {s} (mark_done r e p k q) inv = ground arith
  Step-IsPending {s} (fail_on_signal r e p) inv = ground arith
  Step-IsPending {s} (exit e p) inv = ground arith

  Reach-IsPending : {s : Agent} → Reach grace takes fresh s → IsPending s
  unfolding IsPending Pending
  Reach-IsPending here = ground arith
  Reach-IsPending (next r st) = Step-IsPending st (Reach-IsPending r)

  -- Time can pass.
  pass :
      (s : Agent) (n m : ℕ)
      → m ≡ s.now + n
      → s.exited ≡ false
      → Reach grace takes s (record s { now = m })
  pass s zero m e running =
      let same : m ≡ s.now = omega arith in
      subst (λ k. Reach grace takes s (record s { now = k })) (rw same refl) here
  pass s (suc n) m e running =
      let before = pass s n (s.now + n) refl running in
      subst (λ k. Reach grace takes s (record s { now = k })) (omega arith)
        (next before (tick running))

  -- From a state on the way, with the handler at each of its phases.
  module _ (s : Agent) where
    from_stopped :
        (t : Agent) (r : Option ℕ)
        → Reach grace takes s t
        → t.now ≡ s.now
        → t.phase ≡ s.phase
        → t.exited ≡ false
        → t.done ≡ false
        → t.handler ≡ stopped r
        → Until d r t.now
        → Exits grace takes d s
    unfolding Until
    from_stopped t none r now phase e q h until = absurd until
    from_stopped t (some end) r now phase e q h until =
        let waited = pass t (end - t.now) (t.now + (end - t.now)) refl e in
        (
          _,
          next (next (join r waited) (mark_done end e h (omega arith) q)) (exit e refl),
          refl,
          omega arith,
          phase,
        )

    from_stopping :
        (t : Agent)
        → Reach grace takes s t
        → t.now ≡ s.now
        → t.phase ≡ s.phase
        → t.exited ≡ false
        → t.done ≡ false
        → t.handler ≡ stopping
        → Exits grace takes d s
    from_stopping t r now phase e q h =
        from_stopped _ (return_time grace takes t) (next r (clean_on_signal e h)) now phase e q refl
          (return_time-Until t)

    from_handler :
        (h : HandlerPhase)
        → s.handler ≡ h
        → Pending h s
        → s.exited ≡ false
        → s.delivered ≡ true
        → Exits grace takes d s
    unfolding Pending
    from_handler listening eq (q, done) e del =
        from_stopping _ (next here (catch e eq (q del))) refl refl e done refl
    from_handler stopping eq q e del = from_stopping s here refl refl e q eq
    from_handler (stopped r) eq (until, q) e del = from_stopped s r here refl refl e q eq until
    from_handler gone eq q e del = (_, next here (exit e (q e)), refl, omega arith, refl)

  -- Where every call of `CleanUp` returns, within a time: once a signal is delivered, the process can
  -- end within that time, wherever the main goroutine stands, and without a step of it.
  pub Reach-Exits :
      (s : Agent) → Reach grace takes fresh s → s.delivered ≡ true → Exits grace takes d s
  unfolding IsPending
  Reach-Exits s r del = elim (Bool-cases s.exited) [
    | inl e ↦ (s, here, e, omega arith, refl)
    | inr e ↦ from_handler s s.handler refl (Reach-IsPending r) e del
  ]
