-- ===== src/Pids/Verdict.antt =====
-- What `ProfilePIDs` of internal/agent/profiler/common/pids.go reports after the wait.
use application_profiler.Base.{
  ℕ, suc, ◌≡◌, ◌≢◌, refl, ap, ◌≤◌, Bool, true, false, not, ◌&&◌, List, [], ◌∷◌, Option, none, some,
  String, Error, PidErrors, nil, failed, pid_errors, length, arith, if◌then◌else◌, eqb,
}
use application_profiler.Pids.{collect_failed, count_errors, verdict, profile_pids}

-- Some process was profiled.
abbrev pub any_ok : List (Option Error) → Bool
any_ok [] = false
any_ok (none ∷ errs) = true
any_ok (some e ∷ errs) = any_ok errs

-- Some process was not profiled.
abbrev pub any_error : List (Option Error) → Bool
any_error [] = false
any_error (none ∷ errs) = any_error errs
any_error (some e ∷ errs) = true

abbrev pub is_none {ℓ} : {A : Type ℓ} → Option A → Bool
is_none none = true
is_none (some a) = false

abbrev count_some : List (Option Error) → ℕ
count_some [] = 0
count_some (none ∷ errs) = count_some errs
count_some (some e ∷ errs) = suc (count_some errs)

count_errors-collect_failed :
    (pids : List String) (errs : List (Option Error))
    → length errs ≡ length pids
    → count_errors (collect_failed pids errs) ≡ count_some errs
unfolding collect_failed
count_errors-collect_failed [] [] h = refl
count_errors-collect_failed [] (r ∷ errs) h = absurd (omega arith)
count_errors-collect_failed (p ∷ pids) [] h = absurd (omega arith)
count_errors-collect_failed (p ∷ pids) (none ∷ errs) h =
    count_errors-collect_failed pids errs (omega arith)
count_errors-collect_failed (p ∷ pids) (some e ∷ errs) h =
    ap suc (count_errors-collect_failed pids errs (omega arith))

count_some-le : (errs : List (Option Error)) → count_some errs ≤ length errs
count_some-le [] = omega arith
count_some-le (none ∷ errs) = omega (arith, count_some-le errs)
count_some-le (some e ∷ errs) = omega (arith, count_some-le errs)

any_ok-count_some :
    (errs : List (Option Error)) → (eqb (count_some errs) (length errs)) ≡ not (any_ok errs)
any_ok-count_some [] = refl
any_ok-count_some (none ∷ errs) = ground (arith, count_some-le errs)
any_ok-count_some (some e ∷ errs) = ground (arith, any_ok-count_some errs)

any_error-count_some : (errs : List (Option Error)) → eqb (count_some errs) 0 ≡ not (any_error errs)
any_error-count_some [] = refl
any_error-count_some (none ∷ errs) = any_error-count_some errs
any_error-count_some (some e ∷ errs) = ground arith

module _ (text : Error → String) where
  -- `ProfilePIDs` succeeds exactly if some process was profiled; so it fails without processes.
  pub profile_pids_ok :
      (pids : List String) (errs : List (Option Error))
      → length errs ≡ length pids
      → is_none (profile_pids text pids errs).0 ≡ any_ok errs
  unfolding profile_pids verdict
  profile_pids_ok [] [] complete = refl
  profile_pids_ok [] (r ∷ errs) complete = absurd (omega arith)
  profile_pids_ok (pid ∷ pids) errs complete =
      ground (arith, count_errors-collect_failed (pid ∷ pids) errs complete, any_ok-count_some errs)

  -- A notice is logged exactly if some processes were profiled and some were not.
  pub profile_pids_notice :
      (pids : List String) (errs : List (Option Error))
      → length errs ≡ length pids
      → length (profile_pids text pids errs).1 ≡ (if any_ok errs && any_error errs then 1 else 0)
  unfolding profile_pids verdict
  profile_pids_notice [] [] complete = refl
  profile_pids_notice [] (r ∷ errs) complete = absurd (omega arith)
  profile_pids_notice (pid ∷ pids) errs complete = ground (
    arith,
    count_errors-collect_failed (pid ∷ pids) errs complete,
    any_ok-count_some errs,
    any_error-count_some errs,
  )

-- The processes that an error names.
abbrev pub named : PidErrors → List String
named nil = []
named (failed pid e es) = pid ∷ named es

named-collect_failed :
    (pids : List String) (errs : List (Option Error))
    → length errs ≡ length pids
    → any_ok errs ≡ false
    → named (collect_failed pids errs) ≡ pids
unfolding collect_failed
named-collect_failed [] [] h n = refl
named-collect_failed [] (r ∷ errs) h n = refl
named-collect_failed (p ∷ pids) [] h n = absurd (omega arith)
named-collect_failed (p ∷ pids) (none ∷ errs) h n = cc
named-collect_failed (p ∷ pids) (some e ∷ errs) h n =
    ap (λ (ps : List String). p ∷ ps) (named-collect_failed pids errs (omega arith) n)

-- If no process was profiled, the error names every process, in order, and nothing is logged.
pub profile_pids_all_failed :
    (text : Error → String) (pids : List String) (errs : List (Option Error))
    → length errs ≡ length pids
    → pids ≢ []
    → any_ok errs ≡ false
    → (es : PidErrors) × (profile_pids text pids errs ≡ (some (pid_errors es), []))
      × (named es ≡ pids)
unfolding profile_pids verdict
profile_pids_all_failed text [] errs complete some_pid none_ok = absurd (some_pid refl)
profile_pids_all_failed text (pid ∷ pids) errs complete some_pid none_ok = (
  collect_failed (pid ∷ pids) errs,
  ground (arith, count_errors-collect_failed (pid ∷ pids) errs complete, any_ok-count_some errs),
  named-collect_failed (pid ∷ pids) errs complete none_ok,
)
