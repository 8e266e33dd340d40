-- ===== src/World.antt =====
-- What the agent reads and changes: the running job, the files, and what it did so far.
use application_profiler.Base.{ℕ, List, [], ◌∷◌, ◌++◌, String, Error}
use application_profiler.Base.Int.{ℤ}
use application_profiler.Api.Outputs.{OutputType}
use application_profiler.Job.{ProfilingJob}

-- `api.ProgressStage`
pub data ProgressStage : Type 0 where
  started ended : ProgressStage

-- `api.ChunkData`
pub record ChunkData : Type 0 where
  pub file : String
  pub file_size_in_bytes : ℕ
  pub checksum : String

-- `api.ResultData`, without its time
pub record ResultData : Type 0 where
  pub result_type : OutputType
  pub file : String
  pub file_size_in_bytes : ℕ
  pub checksum : String
  pub compressor_type : String
  pub chunks : List ChunkData

-- `api.Event`: its type with its data. Log events are left out, they only depend on a flag.
pub data Event : Type 0 where
  progress : ProgressStage → Event
  result : ResultData → Event
  notice : String → Event
  error_event : Error → Event

-- A command line.
pub record Command : Type 0 where
  pub name : String
  pub args : List String

-- What an observer of the agent sees it do, apart from the files.
pub data Act : Type 0 where
  event : Event → Act
  sleep : ℤ → Act
  run_command : Command → Act
  signal : ℤ → ℤ → Act

abbrev pub Files : Type 0
Files = List (String × String)

-- A channel of texts with the capacity and what was sent and not yet received, if it was made; in
-- the end it may be closed.
pub data Channel : Type 0 where
  absent : Channel
  opened : ℕ → List String → Channel
  closed : List String → Channel

-- The profiler keeps the processes that it profiles, a directory of the container, and
-- the channel `recordingPIDs` of jcmd.go.
pub record World : Type 0 where
  pub job : ProfilingJob
  pub target_pids : List String
  pub directory : String
  pub recordings : Channel
  pub files : Files
  pub acts : List Act

abbrev pub act : Act → World → World
act a w = record w { acts = w.acts ++ (a ∷ []) }

abbrev pub emit : Event → World → World
emit e w = act (event e) w
