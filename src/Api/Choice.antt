-- ===== src/Api/Choice.antt =====
-- `GetProfilingTool` of api/profiling_tools.go.
use application_profiler.Base.{◌||◌, Result, ok, ◌==◌, if◌then◌else◌, first}
use application_profiler.Api.Langs.{
  ProgrammingLanguage, java, go, python, ruby, node, clang, clang_plus_plus, rust,
}
use application_profiler.Api.Outputs.{
  OutputType, flame_graph, jfr, thread_dump, heap_dump, heap_histogram, flat, traces, collapsed,
  tree, raw, pprof, heap_snapshot,
}
use application_profiler.Api.Tools.{
  ProfilingTool, async_profiler, jcmd, pyspy, bpf, rbspy, node_dummy, pprof_tool,
}
use application_profiler.Api.Tables.{tools_of}

-- `GetProfilingToolsByProgrammingLanguage[l][0]`, which panics where the list is empty.
unfoldable pub default_tool : ProgrammingLanguage → Result ProfilingTool
unfolding tools_of
default_tool l = first (tools_of l)

unfoldable pub get_profiling_tool : ProgrammingLanguage → OutputType → Result ProfilingTool
unfolding default_tool
get_profiling_tool l o =
    if l == java
    then if o == jfr || o == thread_dump || o == heap_dump || o == heap_histogram
      then ok jcmd
      else if o == flame_graph
          || o == flat
          || o == traces
          || o == collapsed
          || o == tree
          || o == raw
      then ok async_profiler
      else default_tool l
    else if l == python
    then ok pyspy
    else if l == go
    then if o == pprof then ok pprof_tool else ok bpf
    else if l == rust
    then ok bpf
    else if l == clang || l == clang_plus_plus
    then ok bpf
    else if l == ruby
    then ok rbspy
    else if l == node
    then if o == flame_graph || o == raw
      then ok bpf
      else if o == heap_snapshot || o == heap_dump
      then ok node_dummy
      else default_tool l
    else default_tool l
