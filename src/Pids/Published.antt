-- ===== src/Pids/Published.antt =====
-- The results that are published while `ProfilePIDs` runs.
use application_profiler.Base.{
  ℕ, ◌+◌, ◌<◌, ◌≡◌, refl, Bool, true, false, ok, err, Error, Option, none, some, List, [], ◌∷◌,
  String, arith, inl, inr, length, Result-cases, Option-cases, Bool-cases, eqb,
}
use application_profiler.Base.Int.{ℤ}
use application_profiler.World.{World, sleep}
use application_profiler.Io.{Io}
use application_profiler.Io.Results.{Publishes, result_events, result_events-append}
use application_profiler.Pids.{profile_pids, verdict, collect_failed, count_errors}
use application_profiler.Pids.Verdict.{any_ok, profile_pids_ok}
use application_profiler.Pids.Serial.{each_pid, profile_serially, emit_all, before_next, prepend}

-- How many processes were profiled.
abbrev pub count_ok : List (Option Error) → ℕ
count_ok [] = 0
count_ok (none ∷ errs) = 1 + count_ok errs
count_ok (some e ∷ errs) = count_ok errs

any_ok-pos : (errs : List (Option Error)) → any_ok errs ≡ true → 0 < count_ok errs
any_ok-pos [] h = cc
any_ok-pos (none ∷ errs) h = omega arith
any_ok-pos (some e ∷ errs) h = any_ok-pos errs h

any_ok-zero : (errs : List (Option Error)) → any_ok errs ≡ false → count_ok errs ≡ 0
any_ok-zero [] h = refl
any_ok-zero (none ∷ errs) h = cc
any_ok-zero (some e ∷ errs) h = any_ok-zero errs h

prepend-some :
    (r : Option Error) (v : Option (List (Option Error)) × World) (errs : List (Option Error))
    → (prepend r v).0 ≡ some errs
    → (rest : List (Option Error)) × (v.0 ≡ some rest) × (errs ≡ r ∷ rest)
prepend-some r (some rest, w) errs h = (rest, refl, cc)
prepend-some r (none, w) errs h = cc

module _ (text : Error → String) (delay : ℤ) (profile : String → Io (Unit {0}))
    (publishing : (pid : String) → Publishes (profile pid)) where
  before_next_quiet :
      (first : Bool) (w : World)
      → result_events (before_next text delay profile first w).acts ≡ result_events w.acts
  before_next_quiet true w = refl
  before_next_quiet false w = omega (arith, result_events-append w.acts (sleep delay ∷ []))

  each_pid_published :
      (first : Bool) (pids : List String) (w : World) (errs : List (Option Error))
      → (each_pid text delay profile first pids w).0 ≡ some errs
      → (length errs ≡ length pids)
        × (result_events (each_pid text delay profile first pids w).1.acts
            ≡ result_events w.acts + count_ok errs)
  unfolding each_pid Publishes
  each_pid_published first [] w errs h = ground arith
  each_pid_published first (pid ∷ pids) w errs h =
      let w₀ = before_next text delay profile first w in
      let v = profile pid w₀ in
      let u = each_pid text delay profile false pids v.1 in
      elim (Result-cases v.0) [
        | inl (a, e) ↦
            let (rest, e₁, e₂) = prepend-some none u errs (ground arith) in
            let (same, published) = each_pid_published false pids v.1 rest e₁ in
            (ground arith, ground (arith, publishing pid w₀, before_next_quiet first w))
        | inr (inl (x, e)) ↦
            let (rest, e₁, e₂) = prepend-some (some x) u errs (ground arith) in
            let (same, published) = each_pid_published false pids v.1 rest e₁ in
            (ground arith, ground (arith, publishing pid w₀, before_next_quiet first w))
        | inr (inr e) ↦ absurd (ground arith)
      ]

  emit_all_quiet :
      (pids : List String) (errs : List (Option Error)) (w : World)
      → result_events (emit_all (profile_pids text pids errs).1 w).acts ≡ result_events w.acts
  unfolding profile_pids verdict
  emit_all_quiet [] errs w = refl
  emit_all_quiet (pid ∷ pids) errs w =
      let n = count_errors (collect_failed (pid ∷ pids) errs) in
      elim (Bool-cases (eqb n 0)) [
        | inl e ↦ rw e refl
        | inr e ↦ elim (Bool-cases (eqb n (length (pid ∷ pids)))) [
          | inl q ↦ rw (e, q) refl
          | inr q ↦ rw (e, q) (omega (arith, result_events-append w.acts _))
        ]
      ]

  -- If every process that is profiled publishes its result, then `ProfilePIDs` succeeds only if a
  -- result was published.
  pub profile_serially_publishes :
      (pids : List String) (w : World)
      → (profile_serially text delay profile pids w).0 ≡ ok tt
      → result_events w.acts < result_events (profile_serially text delay profile pids w).1.acts
  unfolding profile_serially
  profile_serially_publishes pids w h =
      let v = each_pid text delay profile true pids w in
      elim (Option-cases v.0) [
        | inl e ↦ absurd (ground arith)
        | inr (errs, e) ↦
            let (same, published) = each_pid_published true pids w errs e in
            let some_ok : any_ok errs ≡ true =
              ground (arith, profile_pids_ok text pids errs same) in
            ground (arith, emit_all_quiet pids errs v.1, any_ok-pos errs some_ok)
      ]

  -- And if it fails, none was.
  pub profile_serially_fails :
      (pids : List String) (w : World) (e : Error)
      → (profile_serially text delay profile pids w).0 ≡ err e
      → result_events (profile_serially text delay profile pids w).1.acts ≡ result_events w.acts
  unfolding profile_serially
  profile_serially_fails pids w e h =
      let v = each_pid text delay profile true pids w in
      elim (Option-cases v.0) [
        | inl q ↦ absurd (ground arith)
        | inr (errs, q) ↦
            let (same, published) = each_pid_published true pids w errs q in
            let none_ok : any_ok errs ≡ false =
              ground (arith, profile_pids_ok text pids errs same) in
            ground (arith, emit_all_quiet pids errs v.1, any_ok-zero errs none_ok)
      ]
