-- ===== src/Agent/Flags.antt =====
-- The flags of the agent and the map of arguments that `toArgs` of cmd/agent/main.go makes of them.
use application_profiler.Base.{◌≡◌, Bool, true, false, some, List, [], ◌∷◌, String, arith}
use application_profiler.Base.Int.{ℤ}
use application_profiler.Action.Args.{Args}

pub data FlagKind : Type 0 where
  text switch number : FlagKind

-- `cli.StringFlag`, `cli.BoolFlag` and `cli.IntFlag`
pub record Flag : Type 0 where
  pub name : String
  pub kind : FlagKind
  pub is_required : Bool

-- `cli.Context`: the values of the flags. It belongs to a package.
pub record Context : Type 0 where
  pub string : String → String
  pub bool : String → Bool
  pub int : String → ℤ

abbrev optional : String → Flag
optional name = record { name = name; kind = text; is_required = false }

abbrev mandatory : String → Flag
mandatory name = record { name = name; kind = text; is_required = true }

unfoldable pub flags : List Flag
flags =
    optional "job-id"
    ∷ optional "target-container-runtime"
    ∷ optional "target-container-runtime-path"
    ∷ optional "target-pod-uid"
    ∷ mandatory "target-container-id"
    ∷ optional "duration"
    ∷ optional "interval"
    ∷ mandatory "lang"
    ∷ optional "event-type"
    ∷ optional "compressor-type"
    ∷ optional "profiling-tool"
    ∷ mandatory "output-type"
    ∷ optional "filename"
    ∷ record { name = "print-logs"; kind = switch; is_required = false }
    ∷ optional "grace-period-ending"
    ∷ optional "heap-dump-split-in-chunk-size"
    ∷ optional "pid"
    ∷ optional "pgrep"
    ∷ record { name = "node-heap-snapshot-signal"; kind = number; is_required = false }
    ∷ []

-- `toArgs`. The entries for the logs and the grace period are not read by `getProfilingJob`.
unfoldable pub to_args : Context → Args
to_args c = record {
  job_id = c.string "job-id";
  target_container_runtime = c.string "target-container-runtime";
  target_container_runtime_path = c.string "target-container-runtime-path";
  target_pod_uid = c.string "target-pod-uid";
  target_container_id = c.string "target-container-id";
  duration = c.string "duration";
  interval = c.string "interval";
  lang = c.string "lang";
  event_type = c.string "event-type";
  compressor_type = c.string "compressor-type";
  profiling_tool = c.string "profiling-tool";
  output_type = c.string "output-type";
  filename = c.string "filename";
  heap_dump_split_in_chunk_size = some (c.string "heap-dump-split-in-chunk-size");
  pid = some (c.string "pid");
  pgrep = some (c.string "pgrep");
  node_heap_snapshot_signal = some (c.int "node-heap-snapshot-signal");
}

-- Two contexts give the flag the same value.
abbrev Agrees : Context → Context → FlagKind → String → Type 0
Agrees c d text name = c.string name ≡ d.string name
Agrees c d switch name = c.bool name ≡ d.bool name
Agrees c d number name = c.int name ≡ d.int name

unfoldable pub AgreeOn : Context → Context → List Flag → Type 0
AgreeOn c d [] = Unit {0}
AgreeOn c d (f ∷ fs) = Agrees c d f.kind f.name × AgreeOn c d fs

-- The arguments and the period depend on the values of the declared flags only: every name that
-- `toArgs` reads is that of a flag of the kind with which it is read.
pub to_args_reads_flags : (c d : Context) → AgreeOn c d flags → to_args c ≡ to_args d
unfolding to_args flags AgreeOn
to_args_reads_flags c d h = ground arith
