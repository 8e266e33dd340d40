-- ===== src/Flamegraph/Grapher.antt =====
-- factory.go, flamegraph_fake.go, and the conversion of flamegraph_pl.go.
use application_profiler.Base.{Bool, ◌||◌, [], ◌∷◌, errorf, String, ◌<>◌, ◌==◌, if◌then◌else◌}
use application_profiler.Base.Text.{to_title}
use application_profiler.External.{External}
use application_profiler.Api.Langs.{
  ProgrammingLanguage, python, go, node, clang, clang_plus_plus, fake_lang,
}
use application_profiler.Job.{get_width_and_delete}
use application_profiler.Os.{Os}
use application_profiler.FileSystem.{put, content}
use application_profiler.Publisher.{open_file, create_file}
use application_profiler.Io.{
  Io, pure, fail, ◌>>=◌, ◌>>◌, fail_if, run_with, get_job, set_job, get_files, change_files,
}
use application_profiler.Flamegraph.Options.{
  Script, with_title, with_width, with_colors, new_script, script_to_arguments,
}

-- The implementations of the interface `FrameGrapher`.
pub data FrameGrapher : Type 0 where
  script : Script → FrameGrapher
  fake fake_with_error : FrameGrapher

module _ (x : External) where
  -- `Get`, given the width that the job's arguments hold.
  unfoldable pub grapher_of : ProgrammingLanguage → String → FrameGrapher
  unfolding new_script
  grapher_of language width =
      let options = with_title (to_title language <> " - Flamegraph") ∷ with_width width ∷ [] in
      if language == python || language == go
      then script (new_script x options)
      else if language == node
      then script (
          new_script x (
            with_title (to_title language <> " - Flamegraph")
            ∷ with_width width
            ∷ with_colors "js"
            ∷ []))
      else if language == clang || language == clang_plus_plus
      then script (
          new_script x (
            with_title (to_title language <> " - Flamegraph")
            ∷ with_width width
            ∷ with_colors "mem"
            ∷ []))
      else if language == fake_lang
      then fake
      else fake_with_error

  -- The languages for which the width is taken from the job, which then loses it.
  abbrev pub takes_width : ProgrammingLanguage → Bool
  takes_width language =
      language == python
      || language == go
      || language == node
      || language == clang
      || language == clang_plus_plus

  -- `Get`
  unfoldable pub get_grapher : Io FrameGrapher
  unfolding grapher_of get_width_and_delete
  get_grapher = get_job >>= λ job.
      if takes_width job.language
      then set_job (get_width_and_delete x job).1
        >> pure (grapher_of job.language (get_width_and_delete x job).0)
      else pure (grapher_of job.language "")

  module _ (os : Os) where
    -- `StackSamplesToFlameGraph` of the script. What it prints is the output file, even if it fails.
    unfoldable pub run_script : Script → String → String → Io (Unit {0})
    unfolding open_file create_file run_with put script_to_arguments
    run_script g input output = do
      _ ← open_file os input
      create_file os output
      fs ← get_files
      out ←
          run_with os (content input fs) (record { name = g.path; args = script_to_arguments x g })
      change_files (put output out.stdout)
      fail_if (λ e. e) out.error

    unfoldable pub stack_samples_to_flame_graph : FrameGrapher → String → String → Io (Unit {0})
    unfolding run_script
    stack_samples_to_flame_graph (script g) input output = run_script g input output
    stack_samples_to_flame_graph fake input output = pure tt
    stack_samples_to_flame_graph fake_with_error input output =
        fail (errorf "StackSamplesToFlameGraph with error")
