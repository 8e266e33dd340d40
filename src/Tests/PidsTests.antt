-- ===== src/Tests/PidsTests.antt =====
-- Two processes, of which the second fails.
use application_profiler.Base.{
  ℕ, zero, suc, ◌-◌, ◌≡◌, ◌⊎◌, refl, arith, List, [], ◌∷◌, Option, none, some, String, Error,
  errorf, true, length,
}
use application_profiler.Pids.{
  Group, Slot, waiting, done, start, Step, launch, finish, Reach, here, next, IsFinal, returned,
  profile_pids,
}
use application_profiler.Pids.Interleavings.{
  outcomes, Reach-returned, Reach-proceeds, only_endless, remaining, remaining-Step,
}
use application_profiler.Pids.Verdict.{any_ok, is_none, profile_pids_ok}
use application_profiler.Base.{◌==◌, if◌then◌else◌, Bool, true, false}
use application_profiler.World.{absent, World, ResultData, result}
use application_profiler.Io.{Io, fail, emit_event}
use application_profiler.Io.Results.{Publishes, publishes}
use application_profiler.Tests.ActionTests.{job}
use application_profiler.Pids.Outcome.{profile_pids_any_order}

abbrev two : List String
two = "7" ∷ "8" ∷ []

abbrev outcome : ℕ → Option Error
outcome zero = none
outcome (suc n) = some (errorf "gone")

abbrev always : ℕ → Bool
always i = true

abbrev text : Error → String
text e = "gone"

abbrev group : ℕ → ℕ → List Slot → Group
group m n slots = record { started = m; sleeps = n; errs = slots }

abbrev last : Group
last = group 2 1 (done none ∷ done (some (errorf "gone")) ∷ [])

-- The second process returns before the first.
run_of_two : Reach two outcome always last
unfolding start
run_of_two =
    let r₁ : Reach two outcome always (group 1 0 (waiting ∷ waiting ∷ [])) =
      next here (launch (omega arith) refl) in
    let r₂ : Reach two outcome always (group 2 1 (waiting ∷ waiting ∷ [])) =
      next r₁ (launch (omega arith) refl) in
    let r₃ : Reach two outcome always (group 2 1 (waiting ∷ done (some (errorf "gone")) ∷ [])) =
      next r₂ (finish 1 (omega arith) refl refl refl) in
    next r₃ (finish 0 (omega arith) refl refl refl)

last-IsFinal : IsFinal two outcome always last
unfolding IsFinal
last-IsFinal = (refl, refl)

Reach-returned_example :
    (returned last.errs ≡ outcomes (length two) outcome) × (last.sleeps ≡ length two - 1)
Reach-returned_example = Reach-returned two outcome always run_of_two last-IsFinal

-- The call for the second process never returns.
abbrev first_only : ℕ → Bool
first_only zero = true
first_only (suc n) = false

Reach-proceeds_example :
    ((t : Group) × Step two outcome first_only (start two) t)
    ⊎ (((start two).started ≡ length two) × (only_endless first_only (start two).errs ≡ true))
Reach-proceeds_example = Reach-proceeds two outcome first_only here

remaining-Step_example :
    suc (remaining two (group 1 0 (waiting ∷ waiting ∷ []))) ≡ remaining two (start two)
unfolding start
remaining-Step_example = remaining-Step two outcome always (launch (omega arith) refl)

abbrev errors : List (Option Error)
errors = none ∷ some (errorf "gone") ∷ []

profile_pids_any_order_example :
    is_none (profile_pids text two (returned last.errs)).0 ≡ any_ok (outcomes (length two) outcome)
profile_pids_any_order_example =
    profile_pids_any_order text two outcome always run_of_two last-IsFinal

profile_pids_ok_example : is_none (profile_pids text two errors).0 ≡ true
profile_pids_ok_example = profile_pids_ok text two errors refl

-- The first process is profiled and published, the second is gone.
abbrev outcome_data : ResultData
outcome_data = record {
  result_type = "raw";
  file = "";
  file_size_in_bytes = 1;
  checksum = "";
  compressor_type = "none";
  chunks = [];
}

profile : String → Io (Unit {0})
profile pid = if pid == "7" then emit_event (result outcome_data) else fail (errorf "gone")

profile-Publishes : (pid : String) → Publishes (profile pid)
unfolding profile
profile-Publishes pid = search publishes

abbrev before : World
before = record {
  job = job;
  target_pids = two;
  directory = "";
  recordings = absent;
  files = [];
  acts = [];
}
