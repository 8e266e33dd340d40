-- ===== src/Api/EventTypes/Tags.antt =====
-- The JSON of the events of api/event_types.go, as the tags of their structures give it: what the
-- package for JSON does with the structures, over its texts (JsonText). The times are left out.
use application_profiler.Base.{
  ℕ, ◌⊎◌, inl, inr, Error, Option, none, some, List, [], ◌∷◌, String, ◌==◌, if◌then◌else◌, eqb,
}
use application_profiler.World.{ChunkData, ResultData}
use application_profiler.Api.Json.{
  Json, Values, Fields, JsonText, null, text, number, array, object, no_values, value, no_fields,
  field,
}
use application_profiler.Api.EventTypes.{
  EventType, EventData, error_data, result_data, progress_data, notice_data, log_data, EventJson,
}

-- Fields with `omitempty`.
unfoldable pub omit_text : String → String → Fields → Fields
omit_text k t fs = if t == "" then fs else field k (text t) fs

unfoldable pub omit_size : String → ℕ → Fields → Fields
omit_size k n fs = if eqb n 0 then fs else field k (number n) fs

unfoldable pub chunk_json : ChunkData → Json
chunk_json c = object (
    field "file" (text c.file) (
      field "file-size-in-bytes" (number c.file_size_in_bytes)
        (field "checksum" (text c.checksum) no_fields)))

unfoldable pub chunks_json : List ChunkData → Values
unfolding chunk_json
chunks_json [] = no_values
chunks_json (c ∷ cs) = value (chunk_json c) (chunks_json cs)

unfoldable pub omit_chunks : String → List ChunkData → Fields → Fields
unfolding chunks_json
omit_chunks k [] fs = fs
omit_chunks k (c ∷ cs) fs = field k (array (chunks_json (c ∷ cs))) fs

unfoldable pub result_fields : ResultData → Fields
unfolding omit_text omit_size omit_chunks
result_fields r = field "result-type" (text r.result_type) (
    omit_text "file" r.file (
      omit_size "file-size-in-bytes" r.file_size_in_bytes (
        omit_text "checksum" r.checksum (
          omit_text "compressor-type" r.compressor_type
            (omit_chunks "chunks" r.chunks no_fields)))))

unfoldable pub fields_of : EventData → Fields
unfolding result_fields
fields_of (error_data reason) = field "reason" (text reason) no_fields
fields_of (result_data r) = result_fields r
fields_of (progress_data stage) = field "stage" (text stage) no_fields
fields_of (notice_data msg) = field "msg" (text msg) no_fields
fields_of (log_data level msg) = field "level" (text level) (field "msg" (text msg) no_fields)

-- Reading a value over what a field has: nothing if the value has another type.
abbrev pub text_in : String → Json → Option String
text_in old null = some old
text_in old (text t) = some t
text_in old other = none

abbrev pub size_in : ℕ → Json → Option ℕ
size_in old null = some old
size_in old (number n) = some n
size_in old other = none

abbrev pub map_some : {A B : Type 0} → (A → B) → Option A → Option B
map_some f none = none
map_some f (some a) = some (f a)

abbrev pub chunk_field : String → Json → ChunkData → Option ChunkData
chunk_field k v c =
    if k == "file"
    then map_some (λ t. record c { file = t }) (text_in c.file v)
    else if k == "file-size-in-bytes"
    then map_some (λ n. record c { file_size_in_bytes = n }) (size_in c.file_size_in_bytes v)
    else if k == "checksum"
    then map_some (λ t. record c { checksum = t }) (text_in c.checksum v)
    else some c

unfoldable pub read_chunk_fields : Fields → ChunkData → Option ChunkData
read_chunk_fields no_fields c = some c
read_chunk_fields (field k v fs) c = elim (chunk_field k v c) [
  | none ↦ none
  | some d ↦ read_chunk_fields fs d
]

abbrev pub zero_chunk : ChunkData
zero_chunk = record { file = ""; file_size_in_bytes = 0; checksum = "" }

unfoldable pub read_chunk : Json → Option ChunkData
unfolding read_chunk_fields
read_chunk null = some zero_chunk
read_chunk (object fs) = read_chunk_fields fs zero_chunk
read_chunk other = none

unfoldable pub read_chunks : Values → Option (List ChunkData)
unfolding read_chunk
read_chunks no_values = some []
read_chunks (value v vs) = elim (read_chunk v) [
  | none ↦ none
  | some c ↦ map_some (λ cs. c ∷ cs) (read_chunks vs)
]

unfoldable pub chunks_in : Json → Option (List ChunkData)
unfolding read_chunks
chunks_in null = some []
chunks_in (array vs) = read_chunks vs
chunks_in other = none

unfoldable pub result_field : String → Json → ResultData → Option ResultData
unfolding chunks_in
result_field k v r =
    if k == "result-type"
    then map_some (λ t. record r { result_type = t }) (text_in r.result_type v)
    else if k == "file"
    then map_some (λ t. record r { file = t }) (text_in r.file v)
    else if k == "file-size-in-bytes"
    then map_some (λ n. record r { file_size_in_bytes = n }) (size_in r.file_size_in_bytes v)
    else if k == "checksum"
    then map_some (λ t. record r { checksum = t }) (text_in r.checksum v)
    else if k == "compressor-type"
    then map_some (λ t. record r { compressor_type = t }) (text_in r.compressor_type v)
    else if k == "chunks"
    then map_some (λ cs. record r { chunks = cs }) (chunks_in v)
    else some r

-- One field of the JSON, into the field of the structure with that name, if it has one.
unfoldable pub set_field : String → Json → EventData → Option EventData
unfolding result_field
set_field k v (error_data reason) =
    if k == "reason" then map_some error_data (text_in reason v) else some (error_data reason)
set_field k v (result_data r) = map_some result_data (result_field k v r)
set_field k v (progress_data stage) =
    if k == "stage" then map_some progress_data (text_in stage v) else some (progress_data stage)
set_field k v (notice_data msg) =
    if k == "msg" then map_some notice_data (text_in msg v) else some (notice_data msg)
set_field k v (log_data level msg) =
    if k == "level"
    then map_some (λ t. log_data t msg) (text_in level v)
    else if k == "msg"
    then map_some (λ t. log_data level t) (text_in msg v)
    else some (log_data level msg)

-- The fields one after the other; the first that does not fit ends the reading.
unfoldable pub fill : Fields → EventData → Option EventData × EventData
unfolding set_field
fill no_fields d = (some d, d)
fill (field k v fs) d = elim (set_field k v d) [ none ↦ (none, d) | some e ↦ fill fs e ]

-- The type and the data of an event, in any order; `null` is no data.
abbrev pub data_in : Json → Option Json
data_in null = none
data_in v = some v

unfoldable pub event_fields : Fields → EventType × Option Json → Option (EventType × Option Json)
event_fields no_fields e = some e
event_fields (field k v fs) (t, d) =
    if k == "type"
    then elim (text_in t v) [ none ↦ none | some u ↦ event_fields fs (u, d) ]
    else if k == "data"
    then event_fields fs (t, data_in v)
    else event_fields fs (t, d)

module _ (j : JsonText) where
  -- The raw data of an event is the text of its value.
  abbrev pub read_event : Error ⊎ Json → Error ⊎ (EventType × Option String)
  read_event (inl e) = inl e
  read_event (inr null) = inr ("", none)
  read_event (inr (object fs)) = elim (event_fields fs ("", none)) [
    | none ↦ inl j.mismatch
    | some e ↦ inr (e.0, map_some j.print e.1)
  ]
  read_event (inr other) = inl j.mismatch

  abbrev pub read_over : EventData → Error ⊎ Json → Option Error × EventData
  read_over old (inl e) = (some e, old)
  read_over old (inr null) = (none, old)
  read_over old (inr (object fs)) =
      let r = fill fs old in (elim r.0 [ none ↦ some j.mismatch | some d ↦ none ], r.1)
  read_over old (inr other) = (some j.mismatch, old)

  abbrev pub event_text : EventType → String → Error ⊎ Json → String
  event_text t bytes (inl e) = j.verbatim t bytes
  event_text t bytes (inr v) = j.print (object (field "type" (text t) (field "data" v no_fields)))

  -- What the package does with the structures.
  unfoldable pub struct_json : EventJson
  unfolding fields_of fill event_fields
  struct_json = record {
    marshal_data = λ d. inr (j.print (object (fields_of d)));
    marshal_event = λ t bytes. event_text t bytes (j.parse bytes);
    unmarshal_event = λ s. read_event (j.parse s);
    unmarshal_data = λ old bytes. read_over old (j.parse bytes);
    no_target = j.no_target;
  }
