-- ===== src/Api/Outputs.antt =====
-- api/output_types.go: the constants and the list of supported types. The table by tool is in
-- Api/Tables, because it needs the tools.
use application_profiler.Base.{Bool, List, [], ◌∷◌, String}
use application_profiler.External.{External}

abbrev pub OutputType : Type 0
OutputType = String

abbrev pub flame_graph : OutputType
flame_graph = "flamegraph"

abbrev pub speed_scope : OutputType
speed_scope = "speedscope"

abbrev pub jfr : OutputType
jfr = "jfr"

abbrev pub thread_dump : OutputType
thread_dump = "threaddump"

abbrev pub heap_dump : OutputType
heap_dump = "heapdump"

abbrev pub heap_histogram : OutputType
heap_histogram = "heaphistogram"

abbrev pub flat : OutputType
flat = "flat"

abbrev pub traces : OutputType
traces = "traces"

abbrev pub collapsed : OutputType
collapsed = "collapsed"

abbrev pub tree : OutputType
tree = "tree"

abbrev pub callgrind : OutputType
callgrind = "callgrind"

abbrev pub raw : OutputType
raw = "raw"

abbrev pub pprof : OutputType
pprof = "pprof"

abbrev pub summary : OutputType
summary = "summary"

abbrev pub summary_by_line : OutputType
summary_by_line = "summary-by-line"

abbrev pub heap_snapshot : OutputType
heap_snapshot = "heapsnapshot"

-- `pprof` is not among them.
abbrev pub supported_output_types : List OutputType
supported_output_types =
    flame_graph ∷ speed_scope ∷ jfr ∷ thread_dump ∷ heap_dump ∷ heap_histogram ∷ flat ∷ traces
    ∷ collapsed ∷ tree ∷ callgrind ∷ raw ∷ summary ∷ summary_by_line ∷ heap_snapshot ∷ []

unfoldable pub is_supported_output_type : External → String → Bool
is_supported_output_type x output_type = x.contains supported_output_types output_type
