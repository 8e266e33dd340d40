-- ===== src/Api/EventTypes.antt =====
-- api/event_types.go: the events with their data, and `ParseEvent`.
pub mod Tags
pub mod Reading
pub mod Parsing
use application_profiler.Base.{
  ℕ, ◌≡◌, ◌⊎◌, inl, inr, refl, Bool, Result, ok, err, panic, Error, Option, none, some, List, [],
  ◌∷◌, String, ◌==◌, if◌then◌else◌, eqb, arith,
}
use application_profiler.World.{ChunkData, ResultData}

abbrev pub EventType : Type 0
EventType = String

abbrev pub progress_type : EventType
progress_type = "progress"

abbrev pub result_type : EventType
result_type = "result"

abbrev pub notice_type : EventType
notice_type = "notice"

abbrev pub log_type : EventType
log_type = "log"

abbrev pub error_type : EventType
error_type = "error"

-- The structures for the data, without their times: `ErrorData`, `ResultData`, `ProgressData`,
-- `NoticeData` and `LogData`.
pub data EventData : Type 0 where
  error_data : String → EventData
  result_data : ResultData → EventData
  progress_data : String → EventData
  notice_data : String → EventData
  log_data : String → String → EventData

-- The type under which the agent sends the data.
abbrev pub type_of : EventData → EventType
type_of (error_data reason) = error_type
type_of (result_data r) = result_type
type_of (progress_data stage) = progress_type
type_of (notice_data msg) = notice_type
type_of (log_data level msg) = log_type

-- The structures to which the map `typeToData` points: one of each type, for the whole process.
pub record Targets : Type 0 where
  pub error : String
  pub result : ResultData
  pub progress : String
  pub notice : String
  pub level : String
  pub msg : String

abbrev pub zero_result : ResultData
zero_result = record {
  result_type = "";
  file = "";
  file_size_in_bytes = 0;
  checksum = "";
  compressor_type = "";
  chunks = [];
}

abbrev pub zero_targets : Targets
zero_targets = record {
  error = "";
  result = zero_result;
  progress = "";
  notice = "";
  level = "";
  msg = "";
}

-- `GetDataStructByType`, with what the structure holds.
unfoldable pub get_data_struct_by_type : EventType → Targets → Option EventData
get_data_struct_by_type t s =
    if t == error_type
    then some (error_data s.error)
    else if t == result_type
    then some (result_data s.result)
    else if t == progress_type
    then some (progress_data s.progress)
    else if t == notice_type
    then some (notice_data s.notice)
    else if t == log_type
    then some (log_data s.level s.msg)
    else none

-- The structures after one of them was written.
abbrev pub written : EventData → Targets → Targets
written (error_data reason) s = record s { error = reason }
written (result_data r) s = record s { result = r }
written (progress_data stage) s = record s { progress = stage }
written (notice_data msg) s = record s { notice = msg }
written (log_data level msg) s = record s { level = level; msg = msg }

-- The package for JSON. An `Event` is marshalled from its type and its data in JSON; in one that is
-- read the data may be missing. Reading data overwrites a structure, also where it fails.
pub record EventJson : Type 0 where
  pub marshal_data : EventData → Error ⊎ String
  pub marshal_event : EventType → String → String
  pub unmarshal_event : String → Error ⊎ (EventType × Option String)
  pub unmarshal_data : EventData → String → Option Error × EventData
  pub no_target : Error

module _ (json : EventJson) where
  -- What `ParseEvent` returns beside a structure with its content.
  abbrev pub Parsed : Type 0
  Parsed = Result (Option Error × EventData) × Targets

  unfoldable pub read_into : Option EventData → String → Targets → Parsed
  read_into none bytes s = (err json.no_target, s)
  read_into (some old) bytes s = let v = json.unmarshal_data old bytes in (ok v, written v.1 s)

  -- Data that is missing is a nil pointer.
  unfoldable pub parse_data : Error ⊎ (EventType × Option String) → Targets → Parsed
  parse_data (inl e) s = (err e, s)
  parse_data (inr (t, none)) s = (panic, s)
  parse_data (inr (t, some bytes)) s = read_into (get_data_struct_by_type t s) bytes s

  -- `ParseEvent`
  unfoldable pub parse_event : String → Targets → Parsed
  parse_event text s = parse_data (json.unmarshal_event text) s
