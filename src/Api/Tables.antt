-- ===== src/Api/Tables.antt =====
-- The tables of api/profiling_tools.go and api/output_types.go, and the loops that search them.
use application_profiler.Base.{
  ◌≡◌, refl, Bool, true, false, List, [], ◌∷◌, String, ◌==◌, if◌then◌else◌, lookup, or_nil, elem,
  arith,
}
use application_profiler.Api.Langs.{
  ProgrammingLanguage, java, go, python, ruby, node, clang, clang_plus_plus, rust, fake_lang,
}
use application_profiler.Api.Outputs.{
  OutputType, flame_graph, speed_scope, jfr, thread_dump, heap_dump, heap_histogram, flat, traces,
  collapsed, tree, callgrind, raw, pprof, summary, summary_by_line, heap_snapshot,
}
use application_profiler.Api.Tools.{
  ProfilingTool, async_profiler, jcmd, pyspy, bpf, perf, rbspy, node_dummy, fake_tool, austin,
  pprof_tool,
}

-- `GetProfilingToolsByProgrammingLanguage`
abbrev pub tools_by_language : List (ProgrammingLanguage × List ProfilingTool)
tools_by_language =
    (java, jcmd ∷ async_profiler ∷ [])
    ∷ (python, pyspy ∷ austin ∷ [])
    ∷ (go, bpf ∷ pprof_tool ∷ [])
    ∷ (node, bpf ∷ perf ∷ node_dummy ∷ [])
    ∷ (clang, bpf ∷ perf ∷ [])
    ∷ (clang_plus_plus, bpf ∷ perf ∷ [])
    ∷ (ruby, rbspy ∷ [])
    ∷ (rust, bpf ∷ perf ∷ [])
    ∷ (fake_lang, fake_tool ∷ [])
    ∷ []

-- `GetOutputTypesByProfilingTool`
abbrev pub output_types_by_tool : List (ProfilingTool × List OutputType)
output_types_by_tool =
    (async_profiler, flame_graph ∷ jfr ∷ flat ∷ traces ∷ collapsed ∷ tree ∷ raw ∷ [])
    ∷ (jcmd, jfr ∷ thread_dump ∷ heap_dump ∷ heap_histogram ∷ raw ∷ [])
    ∷ (pyspy, flame_graph ∷ speed_scope ∷ thread_dump ∷ raw ∷ [])
    ∷ (bpf, flame_graph ∷ raw ∷ [])
    ∷ (perf, flame_graph ∷ raw ∷ [])
    ∷ (rbspy, flame_graph ∷ speed_scope ∷ callgrind ∷ summary ∷ summary_by_line ∷ [])
    ∷ (node_dummy, heap_snapshot ∷ heap_dump ∷ [])
    ∷ (fake_tool, flame_graph ∷ [])
    ∷ (austin, flame_graph ∷ raw ∷ [])
    ∷ (pprof_tool, pprof ∷ heap_dump ∷ raw ∷ [])
    ∷ []

unfoldable pub tools_of : ProgrammingLanguage → List ProfilingTool
tools_of language = or_nil (lookup language tools_by_language)

unfoldable pub outputs_of : ProfilingTool → List OutputType
outputs_of tool = or_nil (lookup tool output_types_by_tool)

-- The loop `for _, current := range …`.
abbrev pub search_loop : String → List String → Bool
search_loop wanted [] = false
search_loop wanted (current ∷ rest) = if wanted == current then true else search_loop wanted rest

unfoldable pub is_valid_profiling_tool : ProfilingTool → ProgrammingLanguage → Bool
unfolding tools_of
is_valid_profiling_tool tool language = search_loop tool (tools_of language)

unfoldable pub is_valid_output_type : OutputType → ProfilingTool → Bool
unfolding outputs_of
is_valid_output_type output_type tool = search_loop output_type (outputs_of tool)

pub search_loop-eq-elem : (a : String) (xs : List String) → search_loop a xs ≡ elem a xs
search_loop-eq-elem a [] = refl
search_loop-eq-elem a (x ∷ xs) = ground (arith, search_loop-eq-elem a xs)
