-- ===== src/Action/Chosen.antt =====
-- What the two validators of internal/agent/action/profile/profile.go select.
use application_profiler.Base.{
  ◌≡◌, refl, sym, ◌∙◌, true, false, Bool, Result, ok, err, panic, first, String, elem, all,
  all-elem, arith,
}
use application_profiler.External.{External, IsLawful}
use application_profiler.Api.Langs.{ProgrammingLanguage, is_supported_language}
use application_profiler.Api.Outputs.{OutputType}
use application_profiler.Api.Tools.{ProfilingTool}
use application_profiler.Api.Tables.{
  tools_of, outputs_of, is_valid_profiling_tool, is_valid_output_type, search_loop-eq-elem,
}
use application_profiler.Api.Choice.{default_tool}
use application_profiler.Api.Totality.{
  known_langs, is_supported_language-eq-elem, is_valid_choice, get_profiling_tool_valid,
}
use application_profiler.Action.Validate.{select_tool, select_output_type}

defaults_valid : all (λ l. is_valid_choice l (default_tool l)) known_langs ≡ true
unfolding default_tool is_valid_profiling_tool
defaults_valid = refl

abbrev is_producible : ProfilingTool → Result OutputType → Bool
is_producible t (ok o) = is_valid_output_type o t
is_producible t (err e) = false
is_producible t panic = false

default_outputs_valid :
    all (λ l. all (λ t. is_producible t (first (outputs_of t))) (tools_of l)) known_langs ≡ true
unfolding is_valid_output_type tools_of
default_outputs_valid = refl

choice-ok :
    (l : ProgrammingLanguage) (r : Result ProfilingTool)
    → is_valid_choice l r ≡ true
    → (t : ProfilingTool) × (r ≡ ok t) × (is_valid_profiling_tool t l ≡ true)
choice-ok l (ok t) h = (t, refl, h)
choice-ok l (err e) h = cc
choice-ok l panic h = cc

producible-ok :
    (t : ProfilingTool) (r : Result OutputType)
    → is_producible t r ≡ true
    → (o : OutputType) × (r ≡ ok o) × (is_valid_output_type o t ≡ true)
producible-ok t (ok o) h = (o, refl, h)
producible-ok t (err e) h = cc
producible-ok t panic h = cc

module _ (x : External) (lawful : IsLawful x) (l : ProgrammingLanguage) where
  known : is_supported_language x l ≡ true → elem l known_langs ≡ true
  known supported = sym (is_supported_language-eq-elem x lawful l) ∙ supported

  -- For an accepted language the selected tool is one that the table lists for it.
  pub select_tool_valid :
      (t : String) (o : OutputType)
      → is_supported_language x l ≡ true
      → is_valid_choice l (select_tool x t o l) ≡ true
  unfolding select_tool
  select_tool_valid t o supported = ground (
    arith,
    get_profiling_tool_valid x l o lawful supported,
    all-elem (λ k. is_valid_choice k (default_tool k)) known_langs l defaults_valid
        (known supported),
  )

  default_output_valid :
      (t : ProfilingTool)
      → is_supported_language x l ≡ true
      → is_valid_profiling_tool t l ≡ true
      → is_producible t (first (outputs_of t)) ≡ true
  unfolding is_valid_profiling_tool
  default_output_valid t supported listed =
      all-elem (λ t. is_producible t (first (outputs_of t))) (tools_of l) t
        (all-elem (λ k. all (λ t. is_producible t (first (outputs_of t))) (tools_of k)) known_langs
          l default_outputs_valid (known supported))
        (sym (search_loop-eq-elem t (tools_of l)) ∙ listed)

  -- For a tool of an accepted language the selected type is one that the tool can produce.
  pub select_output_type_valid :
      (o : String) (t : ProfilingTool)
      → is_supported_language x l ≡ true
      → is_valid_profiling_tool t l ≡ true
      → is_producible t (select_output_type x o t) ≡ true
  unfolding select_output_type
  select_output_type_valid o t supported listed =
      ground (arith, default_output_valid t supported listed)

  -- Both validators give a value, and so never panic.
  pub select_tool_total :
      (t : String) (o : OutputType)
      → is_supported_language x l ≡ true
      → (tool : ProfilingTool) × (select_tool x t o l ≡ ok tool)
        × (is_valid_profiling_tool tool l ≡ true)
  select_tool_total t o supported = choice-ok l _ (select_tool_valid t o supported)

  pub select_output_type_total :
      (o : String) (t : ProfilingTool)
      → is_supported_language x l ≡ true
      → is_valid_profiling_tool t l ≡ true
      → (output : OutputType) × (select_output_type x o t ≡ ok output)
        × (is_valid_output_type output t ≡ true)
  select_output_type_total o t supported listed =
      producible-ok t _ (select_output_type_valid o t supported listed)
