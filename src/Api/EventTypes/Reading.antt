-- ===== src/Api/EventTypes/Reading.antt =====
-- What is read back of the JSON of an event, whatever the structure for its data had before.
use application_profiler.Base.{
  ℕ, ◌≤◌, ◌≡◌, refl, ◌∙◌, inl, inr, Bool-cases, eq_iff, true, none, some, List, [], ◌∷◌, String,
  ◌==◌, if◌then◌else◌, eqb, arith,
}
use application_profiler.World.{ChunkData, ResultData}
use application_profiler.Api.Json.{
  Values, Fields, JsonText, IsLossless, text, array, object, no_fields, field, depth, depth_values,
  depth_fields,
}
use application_profiler.Api.EventTypes.{
  EventData, error_data, result_data, progress_data, notice_data, log_data, type_of,
}
use application_profiler.Api.EventTypes.Tags.{
  omit_text, omit_size, omit_chunks, chunk_json, chunks_json, result_fields, fields_of,
  read_chunk_fields, read_chunk, read_chunks, chunks_in, result_field, set_field, fill,
  event_fields, struct_json,
}

-- A field that is left out if it is empty: then the reader keeps what it had.
abbrev pub kept_text : String → String → String
kept_text old new = if new == "" then old else new

abbrev pub kept_size : ℕ → ℕ → ℕ
kept_size old new = if eqb new 0 then old else new

abbrev pub kept_chunks : List ChunkData → List ChunkData → List ChunkData
kept_chunks old [] = old
kept_chunks old (c ∷ cs) = c ∷ cs

-- What a structure of the data's type holds after the data was marshalled and read into it.
unfoldable pub merged : EventData → EventData → EventData
merged (result_data old) (result_data new) = result_data (record {
  result_type = new.result_type;
  file = kept_text old.file new.file;
  file_size_in_bytes = kept_size old.file_size_in_bytes new.file_size_in_bytes;
  checksum = kept_text old.checksum new.checksum;
  compressor_type = kept_text old.compressor_type new.compressor_type;
  chunks = kept_chunks old.chunks new.chunks;
})
merged old new = new

-- The chunks are read back.
read_chunks-chunks_json : (cs : List ChunkData) → read_chunks (chunks_json cs) ≡ some cs
unfolding read_chunks chunks_json read_chunk read_chunk_fields chunk_json
read_chunks-chunks_json [] = refl
read_chunks-chunks_json (c ∷ cs) = rw (read_chunks-chunks_json cs) refl

-- Each field that may be left out keeps what the structure had, if it is.
module _ (r : ResultData) (fs : Fields) where
  fill-file :
      (t : String)
      → fill (omit_text "file" t fs) (result_data r)
        ≡ fill fs (result_data (record r { file = kept_text r.file t }))
  unfolding omit_text fill set_field result_field
  fill-file t = elim (Bool-cases (t == "")) [ inl e ↦ rw e refl | inr e ↦ rw e refl ]

  fill-size :
      (n : ℕ)
      → fill (omit_size "file-size-in-bytes" n fs) (result_data r)
        ≡ fill fs (result_data (record r { file_size_in_bytes = kept_size r.file_size_in_bytes n }))
  unfolding omit_size fill set_field result_field
  fill-size n = elim (Bool-cases (eqb n 0)) [ inl e ↦ rw e refl | inr e ↦ rw e refl ]

  fill-checksum :
      (t : String)
      → fill (omit_text "checksum" t fs) (result_data r)
        ≡ fill fs (result_data (record r { checksum = kept_text r.checksum t }))
  unfolding omit_text fill set_field result_field
  fill-checksum t = elim (Bool-cases (t == "")) [ inl e ↦ rw e refl | inr e ↦ rw e refl ]

  fill-compressor :
      (t : String)
      → fill (omit_text "compressor-type" t fs) (result_data r)
        ≡ fill fs (result_data (record r { compressor_type = kept_text r.compressor_type t }))
  unfolding omit_text fill set_field result_field
  fill-compressor t = elim (Bool-cases (t == "")) [ inl e ↦ rw e refl | inr e ↦ rw e refl ]

  fill-array :
      (vs : Values) (cs : List ChunkData)
      → read_chunks vs ≡ some cs
      → fill (field "chunks" (array vs) fs) (result_data r)
        ≡ fill fs (result_data (record r { chunks = cs }))
  unfolding fill set_field result_field chunks_in
  fill-array vs cs h = rw (h, fill) refl

  fill-chunks :
      (cs : List ChunkData)
      → fill (omit_chunks "chunks" cs fs) (result_data r)
        ≡ fill fs (result_data (record r { chunks = kept_chunks r.chunks cs }))
  unfolding omit_chunks
  fill-chunks [] = refl
  fill-chunks (c ∷ cs) =
      fill-array (chunks_json (c ∷ cs)) (c ∷ cs) (read_chunks-chunks_json (c ∷ cs))

fill-result_fields :
    (old r : ResultData)
    → fill (result_fields r) (result_data old)
      ≡ (some (merged (result_data old) (result_data r)), merged (result_data old) (result_data r))
unfolding result_fields fill set_field result_field merged
fill-result_fields old r =
    let r₀ = record old { result_type = r.result_type } in
    let r₁ = record r₀ { file = kept_text old.file r.file } in
    let r₂ = record r₁ {
      file_size_in_bytes = kept_size old.file_size_in_bytes r.file_size_in_bytes;
    } in
    let r₃ = record r₂ { checksum = kept_text old.checksum r.checksum } in
    let r₄ = record r₃ { compressor_type = kept_text old.compressor_type r.compressor_type } in
    let fs₄ = omit_chunks "chunks" r.chunks no_fields in
    let fs₃ = omit_text "compressor-type" r.compressor_type fs₄ in
    let fs₂ = omit_text "checksum" r.checksum fs₃ in
    let fs₁ = omit_size "file-size-in-bytes" r.file_size_in_bytes fs₂ in
    fill-file r₀ fs₁ r.file
    ∙ fill-size r₁ fs₂ r.file_size_in_bytes
    ∙ fill-checksum r₂ fs₃ r.checksum
    ∙ fill-compressor r₃ fs₄ r.compressor_type
    ∙ fill-chunks r₄ no_fields r.chunks

-- Data of the structure's own type is read over it.
fill-fields_of :
    (old d : EventData)
    → type_of old ≡ type_of d
    → fill (fields_of d) old ≡ (some (merged old d), merged old d)
unfolding fill fields_of set_field merged
fill-fields_of (error_data a) (error_data b) t = refl
fill-fields_of (result_data a) (result_data b) t = fill-result_fields a b
fill-fields_of (progress_data a) (progress_data b) t = refl
fill-fields_of (notice_data a) (notice_data b) t = refl
fill-fields_of (log_data a b) (log_data c d) t = refl
fill-fields_of old d t =
    let same : (type_of old == type_of d) ≡ true = (eq_iff (type_of old) (type_of d)).1 t in
    absurd (ground arith)

-- The JSON is not nested deeply.
depth_values-chunks_json : (cs : List ChunkData) → depth_values (chunks_json cs) ≤ 1
unfolding depth_values chunks_json chunk_json
depth_values-chunks_json [] = omega arith
depth_values-chunks_json (c ∷ cs) = ground (arith, depth_values-chunks_json cs)

module _ (k : String) (fs : Fields) (small : depth_fields fs ≤ 2) where
  depth-omit_text : (t : String) → depth_fields (omit_text k t fs) ≤ 2
  unfolding omit_text depth_fields
  depth-omit_text t = ground arith

  depth-omit_size : (n : ℕ) → depth_fields (omit_size k n fs) ≤ 2
  unfolding omit_size depth_fields
  depth-omit_size n = ground arith

  depth-omit_chunks : (cs : List ChunkData) → depth_fields (omit_chunks k cs fs) ≤ 2
  unfolding omit_chunks depth_fields
  depth-omit_chunks [] = small
  depth-omit_chunks (c ∷ cs) = ground (arith, depth_values-chunks_json (c ∷ cs))

depth_result :
    (t : String) (fs : Fields)
    → depth_fields fs ≤ 2
    → depth (object (field "result-type" (text t) fs)) ≤ 3
unfolding depth
depth_result t fs h = ground arith

depth-fields_of : (d : EventData) → depth (object (fields_of d)) ≤ 3
unfolding depth fields_of result_fields
depth-fields_of (error_data reason) = omega arith
depth-fields_of (result_data r) =
    let fs₄ = omit_chunks "chunks" r.chunks no_fields in
    let fs₃ = omit_text "compressor-type" r.compressor_type fs₄ in
    let fs₂ = omit_text "checksum" r.checksum fs₃ in
    let fs₁ = omit_size "file-size-in-bytes" r.file_size_in_bytes fs₂ in
    let chunks = depth-omit_chunks "chunks" no_fields (omega arith) r.chunks in
    let compressor = depth-omit_text "compressor-type" fs₄ chunks r.compressor_type in
    let checksum = depth-omit_text "checksum" fs₃ compressor r.checksum in
    let size = depth-omit_size "file-size-in-bytes" fs₂ checksum r.file_size_in_bytes in
    let file = depth-omit_text "file" fs₁ size r.file in
    depth_result r.result_type (omit_text "file" r.file fs₁) file
depth-fields_of (progress_data stage) = omega arith
depth-fields_of (notice_data msg) = omega arith
depth-fields_of (log_data level msg) = omega arith

module _ (j : JsonText) (lossless : IsLossless j) (d : EventData) where
  -- The text of the data.
  abbrev pub data_text : String
  data_text = j.print (object (fields_of d))

  data_parsed : j.parse data_text ≡ inr (object (fields_of d))
  data_parsed =
      let shallow = depth-fields_of d in lossless.parse-print (object (fields_of d)) (omega arith)

  -- The text of an event is read back as its type and the text of its data.
  pub unmarshal_event-marshal_event :
      (struct_json j).unmarshal_event ((struct_json j).marshal_event (type_of d) data_text)
      ≡ inr (type_of d, some data_text)
  unfolding struct_json event_fields depth
  unmarshal_event-marshal_event =
      let e =
        object (field "type" (text (type_of d)) (field "data" (object (fields_of d)) no_fields)) in
      let shallow = depth-fields_of d in
      let back = lossless.parse-print e (ground arith) in rw (data_parsed, back) refl

  -- The text of the data is read over what a structure had.
  pub unmarshal_data-print :
      (old : EventData)
      → type_of old ≡ type_of d
      → (struct_json j).unmarshal_data old data_text ≡ (none, merged old d)
  unfolding struct_json
  unmarshal_data-print old same = rw (data_parsed, fill-fields_of old d same) refl
