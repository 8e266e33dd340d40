-- ===== src/Api/Tools.antt =====
-- api/profiling_tools.go: the constants, and the list of supported tools.
use application_profiler.Base.{Bool, List, [], ◌∷◌, String}
use application_profiler.External.{External}

abbrev pub ProfilingTool : Type 0
ProfilingTool = String

abbrev pub async_profiler : ProfilingTool
async_profiler = "async-profiler"

abbrev pub jcmd : ProfilingTool
jcmd = "jcmd"

abbrev pub pyspy : ProfilingTool
pyspy = "pyspy"

abbrev pub bpf : ProfilingTool
bpf = "bpf"

abbrev pub perf : ProfilingTool
perf = "perf"

abbrev pub rbspy : ProfilingTool
rbspy = "rbspy"

abbrev pub node_dummy : ProfilingTool
node_dummy = "node-dummy"

abbrev pub fake_tool : ProfilingTool
fake_tool = "fake"

abbrev pub austin : ProfilingTool
austin = "austin"

-- The tool; the output type of that name is `Outputs.pprof`.
abbrev pub pprof_tool : ProfilingTool
pprof_tool = "pprof"

abbrev pub profiling_tools : List ProfilingTool
profiling_tools =
    async_profiler ∷ jcmd ∷ pyspy ∷ bpf ∷ perf ∷ rbspy ∷ austin ∷ pprof_tool ∷ node_dummy ∷ []

unfoldable pub is_supported_profiling_tool : External → String → Bool
is_supported_profiling_tool x profiling_tool = x.contains profiling_tools profiling_tool
