-- ===== src/Api/Totality.antt =====
-- The choice of a tool never panics, and agrees with the tables.
use application_profiler.Base.{
  ◌≡◌, refl, sym, ◌∙◌, true, false, ◌&&◌, Bool, Result, ok, err, panic, List, ◌∷◌, ◌==◌, elem, All,
  All-elem, all, all-elem, arith, String, ◌||◌,
}
use application_profiler.External.{External, IsLawful}
use application_profiler.Api.Langs.{
  ProgrammingLanguage, go, fake_lang, supported_langs, is_supported_language,
}
use application_profiler.Api.Outputs.{OutputType, heap_dump}
use application_profiler.Api.Tools.{ProfilingTool}
use application_profiler.Api.Tables.{
  tools_of, outputs_of, is_valid_profiling_tool, is_valid_output_type, search_loop-eq-elem,
}
use application_profiler.Api.Choice.{get_profiling_tool}

-- The languages that the agent accepts.
abbrev pub known_langs : List ProgrammingLanguage
known_langs = fake_lang ∷ supported_langs

pub is_supported_language-eq-elem :
    (x : External) → IsLawful x → (l : String) → is_supported_language x l ≡ elem l known_langs
unfolding is_supported_language
is_supported_language-eq-elem x lawful l = ground (arith, lawful.contains_lem supported_langs l)

-- A tool that the table lists for the language.
abbrev pub is_valid_choice : ProgrammingLanguage → Result ProfilingTool → Bool
is_valid_choice l panic = false
is_valid_choice l (err e) = false
is_valid_choice l (ok t) = is_valid_profiling_tool t l

choices_valid :
    (o : OutputType) → All (λ l. is_valid_choice l (get_profiling_tool l o) ≡ true) known_langs
unfolding get_profiling_tool is_valid_profiling_tool
choices_valid o = ground arith

-- For every accepted language, and whatever the output type, a tool is chosen, and it is one that
-- the table lists for that language.
pub get_profiling_tool_valid :
    (x : External) (l : ProgrammingLanguage) (o : OutputType)
    → IsLawful x
    → is_supported_language x l ≡ true
    → is_valid_choice l (get_profiling_tool l o) ≡ true
get_profiling_tool_valid x l o lawful supported =
    All-elem (λ k. is_valid_choice k (get_profiling_tool k o) ≡ true) known_langs l
      (choices_valid o) (sym (is_supported_language-eq-elem x lawful l) ∙ supported)

-- The type is one that the tool can produce.
abbrev pub is_supporting : OutputType → Result ProfilingTool → Bool
is_supporting o (ok t) = is_valid_output_type o t
is_supporting o (err e) = false
is_supporting o panic = false

abbrev supports_or_go_heap : ProgrammingLanguage → OutputType → Bool
supports_or_go_heap l o = (l == go && o == heap_dump) || is_supporting o (get_profiling_tool l o)

choices_support :
    all (λ l. all (λ t. all (λ o. supports_or_go_heap l o) (outputs_of t)) (tools_of l)) known_langs
    ≡ true
unfolding get_profiling_tool is_valid_output_type tools_of
choices_support = refl

-- Where some tool of the language can produce the type, the chosen tool can, except for the heap
-- dump of a Go program.
pub get_profiling_tool-is_supporting :
    (x : External) (l : ProgrammingLanguage) (t : ProfilingTool) (o : OutputType)
    → IsLawful x
    → is_supported_language x l ≡ true
    → is_valid_profiling_tool t l ≡ true
    → is_valid_output_type o t ≡ true
    → (l == go && o == heap_dump) ≡ false
    → is_supporting o (get_profiling_tool l o) ≡ true
unfolding is_valid_profiling_tool is_valid_output_type
get_profiling_tool-is_supporting x l t o lawful supported tool_ok output_ok not_go_heap =
    let by_lang =
      all-elem (λ k. all (λ t. all (λ o. supports_or_go_heap k o) (outputs_of t)) (tools_of k))
        known_langs l choices_support
        (sym (is_supported_language-eq-elem x lawful l) ∙ supported) in
    let by_tool =
      all-elem (λ t. all (λ o. supports_or_go_heap l o) (outputs_of t)) (tools_of l) t by_lang
        (sym (search_loop-eq-elem t (tools_of l)) ∙ tool_ok) in
    let by_output =
      all-elem (λ o. supports_or_go_heap l o) (outputs_of t) o by_tool
        (sym (search_loop-eq-elem o (outputs_of t)) ∙ output_ok) in
    rw not_go_heap at by_output
