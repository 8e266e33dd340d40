-- ===== src/Action/Rounds.antt =====
-- What `Run` of internal/agent/action/profile/profile.go makes of a profiler's methods.
use application_profiler.Base.{
  ℕ, zero, suc, ◌+◌, Result-cases, ◌≡◌, refl, ap, ◌↔◌, Result, ok, err, panic, List, [], ◌∷◌, ◌++◌,
  arith, inl, inr,
}
use application_profiler.Base.Int.{ℤ}
use application_profiler.World.{
  World, Act, emit, event, sleep, run_command, signal, progress, result, notice, error_event,
  started, ended,
}
use application_profiler.Action.Run.{
  Profiler, Seconds, pause, rest_of_interval, set_iteration, rounds, iterations_of, run,
}

-- The numbers `k`, `k + 1`, …, `n` of them.
abbrev pub count_from : ℕ → ℕ → List ℕ
count_from k zero = []
count_from k (suc n) = k ∷ count_from (k + 1) n

module _ (secs : Seconds) (p : Profiler) where
  -- From the world `w` each of the rounds with those numbers is invoked, with its number in the job,
  -- succeeds, and is followed by its pause; `w'` is the world after the last one.
  unfoldable pub Performed : ℕ → List ℕ → World → World → Type 0
  Performed n [] w w' = w ≡ w'
  Performed n (k ∷ ks) w w' =
      let v = p.invoke (record w { job = record w.job { iteration = k } }) in
      (v.0 ≡ ok tt) × Performed n ks (pause secs p n v.1 v.2) w'

  rounds-Performed :
      (n left i : ℕ) (w w' : World)
      → rounds secs p n left i w ≡ (ok tt, w')
      → Performed n (count_from (i + 1) left) w w'
  unfolding rounds Performed
  rounds-Performed n zero i w w' h = ap (λ (v : Result (Unit {0}) × World). v.1) h
  rounds-Performed n (suc left) i w w' h =
      let v = p.invoke (set_iteration i w) in
      elim (Result-cases v.0) [
        | inl (_, e) ↦
            (e, rounds-Performed n left (i + 1) (pause secs p n v.1 v.2) w' (ground arith))
        | inr (inl (x, e)) ↦ absurd (ground arith)
        | inr (inr e) ↦ absurd (ground arith)
      ]

  Performed-rounds :
      (n left i : ℕ) (w w' : World)
      → Performed n (count_from (i + 1) left) w w'
      → rounds secs p n left i w ≡ (ok tt, w')
  unfolding rounds Performed
  Performed-rounds n zero i w w' h = ap (λ (v : World). (ok tt, v)) h
  Performed-rounds n (suc left) i w w' (e, rest) =
      let v = p.invoke (set_iteration i w) in
      let more = Performed-rounds n left (i + 1) (pause secs p n v.1 v.2) w' rest in ground arith

  -- `Run` succeeds exactly if `SetUp` does after the start was announced, and then each of the rounds
  -- 1, 2, … up to the number of iterations, in that order; then it leaves the world after the last
  -- round, with the end announced.
  pub run-ok_iff :
      (w : World)
      → ((run secs p w).0 ≡ ok tt) ↔ (
          ((p.set_up (emit (progress started) w)).0 ≡ ok tt)
          × (w' : World) × Performed
              (iterations_of secs p (p.set_up (emit (progress started) w)).1)
              (count_from 1 (iterations_of secs p (p.set_up (emit (progress started) w)).1))
              (p.set_up (emit (progress started) w)).1
              w'
          × ((run secs p w).1 ≡ emit (progress ended) w'))
  unfolding run
  run-ok_iff w =
      let v = p.set_up (emit (progress started) w) in
      let n = iterations_of secs p v.1 in
      let u = rounds secs p n n 0 v.1 in
      (
        (λ h. elim (Result-cases v.0) [
          | inl (_, e) ↦ elim (Result-cases u.0) [
            | inl (_, q) ↦ (
              e,
              u.1,
              rounds-Performed n n 0 v.1 u.1 (ap (λ (r : Result (Unit {0})). (r, u.1)) q),
              ground arith,
            )
            | inr (inl (x, q)) ↦ absurd (ground arith)
            | inr (inr q) ↦ absurd (ground arith)
          ]
          | inr (inl (x, e)) ↦ absurd (ground arith)
          | inr (inr e) ↦ absurd (ground arith)
        ]),
        (λ (e, w', performed, left).
            let done = Performed-rounds n n 0 v.1 w' performed in ground arith),
      )

abbrev is_ended : Act → ℕ
is_ended (event (progress ended)) = 1
is_ended (event (progress started)) = 0
is_ended (event (result d)) = 0
is_ended (event (notice s)) = 0
is_ended (event (error_event e)) = 0
is_ended (sleep d) = 0
is_ended (run_command c) = 0
is_ended (signal p n) = 0

-- How often the end was announced.
abbrev pub ended_events : List Act → ℕ
ended_events [] = 0
ended_events (a ∷ acts) = is_ended a + ended_events acts

abbrev pub ok_count : Result (Unit {0}) → ℕ
ok_count (ok _) = 1
ok_count (err _) = 0
ok_count panic = 0

pub ended_events-append :
    (xs ys : List Act) → ended_events (xs ++ ys) ≡ ended_events xs + ended_events ys
ended_events-append [] ys = omega arith
ended_events-append (x ∷ xs) ys = omega (arith, ended_events-append xs ys)

-- The methods of the profiler do not announce the end of the run themselves.
pub record IsQuiet (p : Profiler) : Type 0 where
  pub set_up_quiet : (w : World) → ended_events (p.set_up w).1.acts ≡ ended_events w.acts
  pub invoke_quiet : (w : World) → ended_events (p.invoke w).2.acts ≡ ended_events w.acts

module _ (secs : Seconds) (p : Profiler) (quiet : IsQuiet p) where
  pause_quiet :
      (n : ℕ) (d : ℤ) (w : World) → ended_events (pause secs p n d w).acts ≡ ended_events w.acts
  unfolding pause
  pause_quiet n d w =
      ground (arith, ended_events-append w.acts (sleep (rest_of_interval w.job.interval d) ∷ []))

  rounds_quiet :
      (n left i : ℕ) (w : World)
      → ended_events (rounds secs p n left i w).1.acts ≡ ended_events w.acts
  unfolding rounds
  rounds_quiet n zero i w = refl
  rounds_quiet n (suc left) i w =
      let v = p.invoke (set_iteration i w) in
      ground (
        arith,
        rounds_quiet n left (i + 1) (pause secs p n v.1 v.2),
        pause_quiet n v.1 v.2,
        quiet.invoke_quiet (set_iteration i w),
      )

  -- The end is announced exactly once if `Run` succeeds, and not at all if it fails.
  pub run-ended_events :
      (w : World)
      → ended_events (run secs p w).1.acts ≡ ended_events w.acts + ok_count (run secs p w).0
  unfolding run
  run-ended_events w =
      let v = p.set_up (emit (progress started) w) in
      let n = iterations_of secs p v.1 in
      let u = rounds secs p n n 0 v.1 in
      ground (
        arith,
        rounds_quiet n n 0 v.1,
        quiet.set_up_quiet (emit (progress started) w),
        ended_events-append w.acts (event (progress started) ∷ []),
        ended_events-append u.1.acts (event (progress ended) ∷ []),
      )
