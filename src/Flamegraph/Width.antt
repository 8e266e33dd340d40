-- ===== src/Flamegraph/Width.antt =====
-- The width of a flame graph.
use application_profiler.Base.{
  ◌≡◌, refl, inl, inr, true, Bool-cases, List, [], ◌∷◌, String, ◌==◌, lookup, none, arith, ok,
}
use application_profiler.External.{External}
use application_profiler.Job.{
  ProfilingJob, delete_key, get_width, delete_width, get_width_and_delete,
  flamegraph_width_in_pixels,
}
use application_profiler.World.{World}
use application_profiler.Io.{◌>>=◌, get_job, set_job, pure}
use application_profiler.Flamegraph.Grapher.{get_grapher, grapher_of, takes_width}

lookup-delete_key : (k : String) (m : List (String × String)) → lookup k (delete_key k m) ≡ none
unfolding delete_key
lookup-delete_key k [] = refl
lookup-delete_key k ((j, v) ∷ m) = elim (Bool-cases (k == j)) [
  | inl e ↦ rw e (lookup-delete_key k m)
  | inr e ↦ rw (e, e) (lookup-delete_key k m)
]

module _ (x : External) where
  get_width-delete_width : (job : ProfilingJob) → get_width x (delete_width job) ≡ ""
  unfolding get_width delete_width
  get_width-delete_width job =
      ground (arith, lookup-delete_key flamegraph_width_in_pixels job.additional_arguments)

  get_grapher_takes :
      (w : World)
      → takes_width x w.job.language ≡ true
      → get_grapher x w ≡ (
        ok (grapher_of x w.job.language (get_width x w.job)),
        record w { job = delete_width w.job },
      )
  unfolding get_grapher ◌>>=◌ get_job set_job pure get_width_and_delete
  get_grapher_takes w h = rw h refl

  -- The width that a job asks for serves one flame graph: for the languages whose script takes it, a
  -- second call of `Get` does as if no width were given, since the first one deleted it.
  pub get_grapher_forgets_width :
      (w : World)
      → takes_width x w.job.language ≡ true
      → (get_grapher x (get_grapher x w).1).0 ≡ ok (grapher_of x w.job.language "")
  unfolding delete_width
  get_grapher_forgets_width w h =
      let after : World = record w { job = delete_width w.job } in
      rw (get_grapher_takes w h, get_grapher_takes after h, get_width-delete_width w.job) refl
