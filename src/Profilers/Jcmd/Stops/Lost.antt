-- ===== src/Profilers/Jcmd/Stops/Lost.antt =====
-- Which goroutines of jcmd.go learn that their process was stopped.
use application_profiler.Base.{
  sym, ap, ℕ, ◌<◌, ◌≡◌, ◌≢◌, refl, true, List, [], ◌∷◌, ◌++◌, String, ◌||◌, elem, arith, eq_iff,
  ◌∙◌,
}
use application_profiler.Profilers.Jcmd.Stops.{
  Waiter, polling, ignoring, Stops, waiting, Step, send, close, take_own, take_other, take_nothing,
  find_running, find_ended, Reach, here, next,
}

elem-append : (a : String) (xs ys : List String) → elem a (xs ++ ys) ≡ (elem a xs || elem a ys)
elem-append a [] ys = refl
elem-append a (x ∷ xs) ys = ground (arith, elem-append a xs ys)

module _ (capacity : ℕ) (pid_of : ℕ → String) where
  -- What is in the channel was sent, and so was the process of a goroutine that ignores its recording.
  record Inv (s : Stops) : Type 0 where
    queued : (a : String) → elem a s.queue ≡ true → elem a s.sent ≡ true
    told : (i : ℕ) → s.waiters i ≡ ignoring → elem (pid_of i) s.sent ≡ true

  Step-Inv : {s t : Stops} → Step capacity pid_of s t → Inv s → Inv t
  Step-Inv {s} (send pid rest u c room) inv = record {
    queued = λ a h.
        ground
          (arith, inv.queued a, elem-append a s.queue (pid ∷ []), elem-append a s.sent (pid ∷ []));
    told = λ i h. ground (arith, inv.told i h, elem-append (pid_of i) s.sent (pid ∷ []));
  }
  Step-Inv {s} (close u c) inv = record { queued = inv.queued; told = inv.told }
  Step-Inv {s} (take_own i queue p q) inv = record {
    queued = λ a h. ground (arith, inv.queued a);
    told = λ j h. ground (arith, inv.told j, inv.queued (pid_of i), eq_iff (pid_of i) (pid_of i));
  }
  Step-Inv {s} (take_other i pid queue p q ne) inv = record {
    queued = λ a h. ground (arith, inv.queued a);
    told = inv.told;
  }
  Step-Inv {s} (take_nothing i p q c ne) inv = inv
  Step-Inv {s} (find_running i p q c) inv = inv
  Step-Inv {s} (find_ended i p q c) inv = record {
    queued = inv.queued;
    told = λ j h. ground (arith, inv.told j);
  }

  waiting-Inv : (pids : List String) → Inv (waiting pids)
  waiting-Inv pids = record { queued = λ a h. cc; told = λ i h. cc }

  Reach-Inv : (pids : List String) {s : Stops} → Reach capacity pid_of (waiting pids) s → Inv s
  Reach-Inv pids here = waiting-Inv pids
  Reach-Inv pids (next r st) = Step-Inv st (Reach-Inv pids r)

  -- A goroutine ignores its recording only if `CleanUp` has sent its process.
  pub Reach-ignoring :
      (pids : List String) {s : Stops} (i : ℕ)
      → Reach capacity pid_of (waiting pids) s
      → s.waiters i ≡ ignoring
      → elem (pid_of i) s.sent ≡ true
  Reach-ignoring pids i r h = (Reach-Inv pids r).told i h

  -- The channel is closed and empty.
  record Shut (s : Stops) : Type 0 where
    closed : s.is_closed ≡ true
    empty : s.queue ≡ []

  Step-Shut : {s t : Stops} → Step capacity pid_of s t → Shut s → Shut t × (t.waiters ≡ s.waiters)
  Step-Shut (send pid rest u c room) h = absurd (ground (arith, h.closed))
  Step-Shut (close u c) h = absurd (ground (arith, h.closed))
  Step-Shut (take_own i queue p q) h = absurd (ground (arith, h.empty))
  Step-Shut (take_other i pid queue p q ne) h = absurd (ground (arith, h.empty))
  Step-Shut (take_nothing i p q c ne) h = (h, refl)
  Step-Shut (find_running i p q c) h = absurd (ground (arith, h.closed))
  Step-Shut (find_ended i p q c) h = absurd (ground (arith, h.closed))

  Reach-Shut : {s t : Stops} → Reach capacity pid_of s t → Shut s → Shut t × (t.waiters ≡ s.waiters)
  Reach-Shut here h = (h, refl)
  Reach-Shut (next r st) h =
      let (kept, same) = Reach-Shut r h in
      let (still, last) = Step-Shut st kept in (still, last ∙ same)

  Reach-append :
      {s t u : Stops}
      → Reach capacity pid_of s t
      → Reach capacity pid_of t u
      → Reach capacity pid_of s u
  Reach-append r here = r
  Reach-append r (next q st) = next (Reach-append r q) st

  -- Both stops were sent and taken, the channel is closed, and both goroutines wait.
  abbrev pub lost : Stops
  lost = record {
    queue = [];
    is_closed = true;
    unsent = [];
    sent = pid_of 0 ∷ pid_of 1 ∷ [];
    waiters = λ i. polling;
  }

  lost_reached :
      1 < capacity
      → pid_of 0 ≢ pid_of 1
      → Reach capacity pid_of (waiting (pid_of 0 ∷ pid_of 1 ∷ [])) lost
  lost_reached room differ =
      let r₁ = next here (send (pid_of 0) (pid_of 1 ∷ []) refl refl (omega arith)) in
      let r₂ = next r₁ (send (pid_of 1) [] refl refl room) in
      let r₃ = next r₂ (take_other 1 (pid_of 0) (pid_of 1 ∷ []) refl refl differ) in
      let r₄ = next r₃ (take_other 0 (pid_of 1) [] refl refl (λ e. differ (sym e))) in
      next r₄ (close refl refl)

  -- The goroutines for two processes can lose both stops: each takes the other's process from the
  -- channel, and then `CleanUp` closes it. In every state from there on, which the wait and `CleanUp`
  -- reach, both goroutines still poll.
  pub Reach-lost :
      {t : Stops}
      → 1 < capacity
      → pid_of 0 ≢ pid_of 1
      → Reach capacity pid_of lost t
      → Reach capacity pid_of (waiting (pid_of 0 ∷ pid_of 1 ∷ [])) t
        × (t.waiters 0 ≡ polling)
        × (t.waiters 1 ≡ polling)
  Reach-lost room differ r =
      let (_, same) = Reach-Shut r (record { closed = refl; empty = refl }) in
      (
        Reach-append (lost_reached room differ) r,
        ap (λ (f : ℕ → Waiter). f 0) same,
        ap (λ (f : ℕ → Waiter). f 1) same,
      )
