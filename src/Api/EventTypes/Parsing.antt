-- ===== src/Api/EventTypes/Parsing.antt =====
-- What `ParseEvent` of event_types.go makes of a line of the agent.
use application_profiler.Base.{
  ℕ, Bool-cases, eq_iff, ◌≡◌, inl, inr, refl, ok, none, some, String, ◌==◌, arith, List, [], ◌∷◌,
  true, Error, ◌++◌,
}
use application_profiler.External.{External}
use application_profiler.Log.{Console, is_print_logs_allowed, event_ln}
use application_profiler.World.{ResultData, ChunkData}
use application_profiler.Api.EventTypes.{
  EventData, error_data, result_data, progress_data, notice_data, log_data, type_of, Targets,
  zero_targets, get_data_struct_by_type, written, read_into, parse_data, parse_event,
}
use application_profiler.Api.Json.{JsonText, IsLossless, object}
use application_profiler.Api.EventTypes.Tags.{fields_of, struct_json}
use application_profiler.Api.EventTypes.Reading.{
  merged, kept_text, kept_size, kept_chunks, unmarshal_event-marshal_event, unmarshal_data-print,
}

-- The structure that the data is read into has its type.
abbrev target : EventData → Targets → EventData
target (error_data reason) s = error_data s.error
target (result_data r) s = result_data s.result
target (progress_data stage) s = progress_data s.progress
target (notice_data msg) s = notice_data s.notice
target (log_data level msg) s = log_data s.level s.msg

get_data_struct_by_type_of :
    (d : EventData) (s : Targets) → get_data_struct_by_type (type_of d) s ≡ some (target d s)
unfolding get_data_struct_by_type
get_data_struct_by_type_of (error_data reason) s = refl
get_data_struct_by_type_of (result_data r) s = refl
get_data_struct_by_type_of (progress_data stage) s = refl
get_data_struct_by_type_of (notice_data msg) s = refl
get_data_struct_by_type_of (log_data level msg) s = refl

type_of-target : (d : EventData) (s : Targets) → type_of (target d s) ≡ type_of d
type_of-target (error_data reason) s = refl
type_of-target (result_data r) s = refl
type_of-target (progress_data stage) s = refl
type_of-target (notice_data msg) s = refl
type_of-target (log_data level msg) s = refl

kept_text_fresh : (t : String) → kept_text "" t ≡ t
kept_text_fresh t = elim (Bool-cases (t == "")) [
  | inl e ↦ rw ((eq_iff t "").0 e) refl
  | inr e ↦ rw e refl
]

kept_size_fresh : (n : ℕ) → kept_size 0 n ≡ n
kept_size_fresh n = ground arith

kept_chunks_fresh : (cs : List ChunkData) → kept_chunks [] cs ≡ cs
kept_chunks_fresh [] = refl
kept_chunks_fresh (c ∷ cs) = refl

merged_fresh : (d : EventData) → merged (target d zero_targets) d ≡ d
unfolding merged
merged_fresh (error_data reason) = refl
merged_fresh (result_data r) = ground (
  arith,
  kept_text_fresh r.file,
  kept_size_fresh r.file_size_in_bytes,
  kept_text_fresh r.checksum,
  kept_text_fresh r.compressor_type,
  kept_chunks_fresh r.chunks,
)
merged_fresh (progress_data stage) = refl
merged_fresh (notice_data msg) = refl
merged_fresh (log_data level msg) = refl

abbrev pub checksum_of : EventData → String
checksum_of (result_data r) = r.checksum
checksum_of other = ""

-- The line of an event.
unfoldable pub line : JsonText → EventData → String
unfolding struct_json
line j d = (struct_json j).marshal_event (type_of d) (j.print (object (fields_of d)))

module _ (j : JsonText) (lossless : IsLossless j) where
  -- The line of an event is read back as its data, over what the structure for its type had before.
  parse_event_merges :
      (d : EventData) (s : Targets)
      → parse_event (struct_json j) (line j d) s
        ≡ (ok (none, merged (target d s) d), written (merged (target d s) d) s)
  unfolding line parse_event parse_data read_into
  parse_event_merges d s =
      rw
        (
          unmarshal_event-marshal_event j lossless d,
          get_data_struct_by_type_of d s,
          unmarshal_data-print j lossless d (target d s) (type_of-target d s),
        )
        refl

  -- The same while no event was parsed before.
  parse_event_fresh :
      (d : EventData)
      → parse_event (struct_json j) (line j d) zero_targets ≡ (ok (none, d), written d zero_targets)
  parse_event_fresh d = rw (parse_event_merges d zero_targets, merged_fresh d) refl

  -- An event whose type the logger prints: `EventLn` prints one line, and that is read back as the data
  -- that was sent, while no event was parsed before.
  pub parse_event-event_ln :
      (x : External) (shown : Error → String) (d : EventData) (c : Console)
      → is_print_logs_allowed c.logger (type_of d) ≡ true
      → (event_ln x (struct_json j) shown (type_of d) d c
          ≡ (none, record c { lines = c.lines ++ (line j d ∷ []) }))
        × (parse_event (struct_json j) (line j d) zero_targets
            ≡ (ok (none, d), written d zero_targets))
  unfolding event_ln line struct_json
  parse_event-event_ln x shown d c allowed = (rw allowed refl, parse_event_fresh d)

  checksum_of-merged :
      (r q : ResultData)
      → q.checksum ≡ ""
      → checksum_of (merged (result_data r) (result_data q)) ≡ r.checksum
  unfolding merged
  checksum_of-merged r q empty = rw empty refl

  -- If a result with a checksum is parsed and then one without, such as one in chunks, the second is
  -- given the checksum of the first.
  pub parse_event_keeps_checksum :
      (r q : ResultData)
      → q.checksum ≡ ""
      → (v : EventData) × ((parse_event
            (struct_json j)
            (line j (result_data q))
            (parse_event (struct_json j) (line j (result_data r)) zero_targets).1).0
          ≡ ok (none, v))
        × (checksum_of v ≡ r.checksum)
  parse_event_keeps_checksum r q empty =
      let before = parse_event_fresh (result_data r) in
      let after = parse_event_merges (result_data q) (written (result_data r) zero_targets) in
      (
        merged (result_data r) (result_data q),
        rw before (rw after refl),
        checksum_of-merged r q empty,
      )
