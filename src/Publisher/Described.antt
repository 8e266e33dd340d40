-- ===== src/Publisher/Described.antt =====
-- What the event of a published file says about the file.
use application_profiler.Base.{
  ℕ, ◌≡◌, refl, ap, ap₂, sym, ◌∙◌, Result, ok, some, List, [], ◌∷◌, ◌++◌, String, ◌<>◌, ◌==◌, false,
  arith, inl, inr, Result-cases, Option-cases, lookup,
}
use application_profiler.Base.Text.{size_of}
use application_profiler.Api.Outputs.{OutputType}
use application_profiler.Compressor.{Compressor, CompressorType, no_compressor, extension_of, get}
use application_profiler.World.{World, Files, Act, event, result}
use application_profiler.Os.{Os}
use application_profiler.FileSystem.{read_file, put, size, content, checksum}
use application_profiler.FileSystem.Lookup.{lookup-put, lookup-put_other}
use application_profiler.Io.Binding.{wrapped-ok}
use application_profiler.Io.{
  Io, pure, fail, ◌>>=◌, wrapped, fail_if, lift, get_files, change_files, emit_event,
}
use application_profiler.Publisher.{
  open_file, create_file, open_result, compress, publish, announce,
}

-- The event for a result that is published in one file.
abbrev pub published : CompressorType → String → OutputType → ℕ → String → Act
published c f o n sum = event (
    result (record {
      result_type = o;
      file = f;
      file_size_in_bytes = n;
      checksum = sum;
      compressor_type = c;
      chunks = [];
    }))

content-put :
    (path f source : String) (fs : Files)
    → (path == f) ≡ false
    → lookup path fs ≡ some source
    → content path (put f "" fs) ≡ source
content-put path f source fs apart found = ground (arith, lookup-put_other f path "" fs apart)

size-put : (f c : String) (fs : Files) → size f (put f c fs) ≡ size_of c
unfolding size
size-put f c fs = ground (arith, lookup-put f c fs)

module _ (os : Os) (f : String) (w : World) where
  open_file-ok :
      (source : String)
      → (open_file os f w).0 ≡ ok source
      → (lookup f w.files ≡ some source) × ((open_file os f w).1 ≡ w)
  unfolding open_file ◌>>=◌ get_files lift read_file
  open_file-ok source h = elim (Option-cases (lookup f w.files)) [
    | inl e ↦ absurd (ground arith)
    | inr (c, e) ↦ elim (Option-cases (os.open_error f w.files)) [
      | inl q ↦ (ground arith, refl)
      | inr (x, q) ↦ absurd (ground arith)
    ]
  ]

  create_file-ok :
      (create_file os f w).0 ≡ ok tt
      → (create_file os f w).1 ≡ record w { files = put f "" w.files }
  unfolding create_file ◌>>=◌ get_files fail_if pure fail change_files
  create_file-ok h = elim (Option-cases (os.create_error f w.files)) [
    | inl q ↦ ground arith
    | inr (x, q) ↦ absurd (ground arith)
  ]

module _ (os : Os) (encode : Compressor → String → Result String) (c : CompressorType)
    (compressed : (c == no_compressor) ≡ false) where
  open_result-eq-create_file :
      (f : String)
      → open_result os encode c f
        ≡ wrapped ("could not create result file " <> f) (create_file os f)
  unfolding open_result
  open_result-eq-create_file f = rw compressed refl

  open_result-ok :
      (f : String) (w : World)
      → (open_result os encode c f w).0 ≡ ok tt
      → (open_result os encode c f w).1 ≡ record w { files = put f "" w.files }
  open_result-ok f w h =
      let same = ap (λ (m : Io (Unit {0})). m w) (open_result-eq-create_file f) in
      let (done, after) =
        wrapped-ok ("could not create result file " <> f) (create_file os f) w tt
          (sym (ap (λ (v : Result (Unit {0}) × World). v.0) same) ∙ h) in
      ap (λ (v : Result (Unit {0}) × World). v.1) same ∙ after ∙ create_file-ok os f w done

  compress-ok :
      (comp : Compressor) (path f : String) (w : World)
      → (compress os encode c comp path f w).0 ≡ ok tt
      → (bytes : String) × (encode comp (content path w.files) ≡ ok bytes)
        × ((compress os encode c comp path f w).1 ≡ record w { files = put f bytes w.files })
  unfolding compress ◌>>=◌ get_files wrapped lift change_files
  compress-ok comp path f w h = elim (Result-cases (encode comp (content path w.files))) [
    | inl (bytes, e) ↦ (bytes, e, ground arith)
    | inr (inl (x, e)) ↦ absurd (ground arith)
    | inr (inr e) ↦ absurd (ground arith)
  ]

  -- If the publication succeeds, each of its steps does.
  publish_steps :
      (path : String) (o : OutputType) (w : World)
      → (publish os encode c path o w).0 ≡ ok tt
      → let f = path <> extension_of c in
        let v = open_file os path w in
        let u = open_result os encode c f v.1 in
        (source : String) × (comp : Compressor) × (v.0 ≡ ok source)
        × (u.0 ≡ ok tt)
        × (get c ≡ ok comp)
        × ((compress os encode c comp path f u.1).0 ≡ ok tt)
        × (publish os encode c path o w
            ≡ announce os encode c f o (compress os encode c comp path f u.1).1)
  unfolding publish ◌>>=◌ lift
  publish_steps path o w h =
      let f = path <> extension_of c in
      let v = open_file os path w in
      let u = open_result os encode c f v.1 in
      elim (Result-cases v.0) [
        | inl (source, e₁) ↦ elim (Result-cases u.0) [
          | inl (_, e₂) ↦ elim (Result-cases (get c)) [
            | inl (comp, e₃) ↦ elim (Result-cases (compress os encode c comp path f u.1).0) [
              | inl (_, e₄) ↦ (source, comp, e₁, e₂, e₃, e₄, ground arith)
              | inr (inl (x, e₄)) ↦ absurd (ground arith)
              | inr (inr e₄) ↦ absurd (ground arith)
            ]
            | inr (inl (x, e₃)) ↦ absurd (ground arith)
            | inr (inr e₃) ↦ absurd (ground arith)
          ]
          | inr (inl (x, e₂)) ↦ absurd (ground arith)
          | inr (inr e₂) ↦ absurd (ground arith)
        ]
        | inr (inl (x, e₁)) ↦ absurd (ground arith)
        | inr (inr e₁) ↦ absurd (ground arith)
      ]

  -- A file that is published compressed: what was read from it was encoded, the result file holds
  -- the encoded bytes, and the one new act is an event that names the result file, with its size and
  -- its checksum.
  pub publish_describes_result :
      (path : String) (o : OutputType) (w : World)
      → (path == path <> extension_of c) ≡ false
      → (publish os encode c path o w).0 ≡ ok tt
      → let w' = (publish os encode c path o w).1 in
        let f = path <> extension_of c in
        (source bytes : String) × (comp : Compressor) × (lookup path w.files ≡ some source)
        × (get c ≡ ok comp)
        × (encode comp source ≡ ok bytes)
        × (lookup f w'.files ≡ some bytes)
        × (w'.acts ≡ w.acts ++ (published c f o (size_of bytes) (checksum os f w'.files) ∷ []))
  unfolding announce ◌>>=◌ get_files emit_event
  publish_describes_result path o w apart h =
      let f = path <> extension_of c in
      let v = open_file os path w in
      let u = open_result os encode c f v.1 in
      let (source, comp, e₁, e₂, e₃, e₄, same) = publish_steps path o w h in
      let (found, unchanged) = open_file-ok os path w source e₁ in
      let created = open_result-ok f v.1 e₂ in
      let (bytes, encoded, written) = compress-ok comp path f u.1 e₄ in
      let opened = ap (λ (z : World). put f "" z.files) unchanged in
      let files_u = ap (λ (z : World). z.files) created ∙ opened in
      let read_back = ap (content path) files_u ∙ content-put path f source w.files apart found in
      let files_z = ap (λ (z : World). z.files) written in
      let files' = ap (λ (q : Result (Unit {0}) × World). q.1.files) same ∙ files_z in
      let acts_z =
        ap (λ (z : World). z.acts) written
        ∙ ap (λ (z : World). z.acts) created
        ∙ ap (λ (z : World). z.acts) unchanged in
      (
        source,
        bytes,
        comp,
        found,
        e₃,
        ap (encode comp) (sym read_back) ∙ encoded,
        ap (lookup f) files' ∙ lookup-put f bytes u.1.files,
        ap (λ (q : Result (Unit {0}) × World). q.1.acts) same
            ∙ ap₂
                (λ (acts : List Act) (fs : Files).
                  acts ++ (published c f o (size f fs) (checksum os f fs) ∷ []))
                acts_z files_z
            ∙ ap
                (λ (n : ℕ).
                  w.acts ++ (published c f o n (checksum os f (put f bytes u.1.files)) ∷ []))
                (size-put f bytes u.1.files)
            ∙ ap
                (λ (fs : Files).
                  w.acts ++ (published c f o (size_of bytes) (checksum os f fs) ∷ []))
                (sym files'),
      )
