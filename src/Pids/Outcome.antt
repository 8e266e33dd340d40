-- ===== src/Pids/Outcome.antt =====
-- `ProfilePIDs` of internal/agent/profiler/common/pids.go as a whole.
use application_profiler.Base.{
  ℕ, zero, suc, ◌≡◌, refl, ap, Bool, List, Option, String, Error, length,
}
use application_profiler.Pids.{Group, Reach, IsFinal, returned, profile_pids}
use application_profiler.Pids.Interleavings.{outcomes, Reach-returned}
use application_profiler.Pids.Verdict.{any_ok, is_none, profile_pids_ok}

length-outcomes : (n : ℕ) (f : ℕ → Option Error) → length (outcomes n f) ≡ n
length-outcomes zero f = refl
length-outcomes (suc n) f = ap suc (length-outcomes n (λ i. f (suc i)))

-- In whatever order the goroutines run, the call succeeds exactly if one of them succeeded.
pub profile_pids_any_order :
    (text : Error → String) (pids : List String) (outcome : ℕ → Option Error) (returns : ℕ → Bool)
    {s : Group}
    → Reach pids outcome returns s
    → IsFinal pids outcome returns s
    → is_none (profile_pids text pids (returned s.errs)).0 ≡ any_ok (outcomes (length pids) outcome)
profile_pids_any_order text pids outcome returns r final =
    rw ((Reach-returned pids outcome returns r final).0) (
      profile_pids_ok text pids (outcomes (length pids) outcome)
        (length-outcomes (length pids) outcome))
