-- ===== src/Publisher/Decoded.antt =====
-- A published file and the decoder of its compressor.
use text.Mathlib.TextLemmas.{nil-append}
use application_profiler.Base.{
  ◌≡◌, refl, sym, ap, subst, ◌∙◌, ◌≢◌, ◌+◌, ◌/◌, ◌≤◌, false, ok, some, none, List, String, ◌<>◌,
  ◌==◌, arith, lookup, ok-injective, ◌>>=◌,
}
use application_profiler.Base.Text.{size_of}
use application_profiler.Api.Outputs.{OutputType}
use application_profiler.Compressor.{
  Compressor, CompressorType, none_compressor, no_compressor, extension_of, get,
}
use application_profiler.Compressor.Streams.{joined, buffer}
use application_profiler.Compressor.Packages.{Packages, IsLawful}
use application_profiler.Compressor.Methods.{Outcome, decode, encode_bytes}
use application_profiler.Compressor.RoundTrip.{encode-IsRead, IsRead, extended}
use application_profiler.World.{World}
use application_profiler.Os.{Os}
use application_profiler.FileSystem.{size}
use application_profiler.Publisher.{publish}
use application_profiler.Publisher.Described.{publish_describes_result}

get-ne-none_compressor :
    (c : CompressorType) (comp : Compressor)
    → (c == no_compressor) ≡ false
    → get c ≡ ok comp
    → comp ≢ none_compressor
unfolding get
get-ne-none_compressor c comp h g = ground arith

size-ok :
    (path source : String) (w : World)
    → lookup path w.files ≡ some source
    → size path w.files ≡ size_of source
unfolding size
size-ok path source w h = rw (h, size) refl

module _ (os : Os) (p : Packages) (l : IsLawful p) (reads : String → List String)
    (reads_lem : (s : String) → joined (reads s) ≡ s) where
  encode_bytes-IsRead :
      (comp : Compressor) (source bytes : String)
      → comp ≢ none_compressor
      → 32 + size_of source + size_of source / 6 ≤ 4294967295
      → encode_bytes p reads comp source ≡ ok bytes
      → decode p comp (record { pieces = reads bytes; problem = none }) buffer
        ≡ (ok tt, extended source buffer)
  unfolding encode_bytes IsRead
  encode_bytes-IsRead comp source bytes n fits e =
      let same = reads_lem source in
      let (made, encoded, read) =
        encode-IsRead p l (reads source) comp buffer n (λ s b. refl)
          (subst (λ s. 32 + size_of s + size_of s / 6 ≤ 4294967295) (sym same) fits) in
      let held =
        sym (nil-append made)
        ∙ ok-injective ("" <> made) bytes
            (sym (ap (λ (r : Outcome). r.0 >>= λ _. ok r.1.written) encoded) ∙ e) in
      read (reads bytes) buffer (λ s b. refl) (reads_lem bytes ∙ sym held)
      ∙ ap (λ s. (ok tt, extended s buffer)) same

  -- A file that is published compressed, with the repository's `Encode`: the result file decodes to
  -- what the file held. The file is small enough for snappy, and the reads of a file give all of it.
  pub publish-decode :
      (c : CompressorType) (path : String) (o : OutputType) (w : World)
      → (c == no_compressor) ≡ false
      → (path == path <> extension_of c) ≡ false
      → 32 + size path w.files + size path w.files / 6 ≤ 4294967295
      → (publish os (encode_bytes p reads) c path o w).0 ≡ ok tt
      → (source bytes : String) × (comp : Compressor) × (lookup path w.files ≡ some source)
        × (get c ≡ ok comp)
        × (lookup (path <> extension_of c) (publish os (encode_bytes p reads) c path o w).1.files
            ≡ some bytes)
        × (decode p comp (record { pieces = reads bytes; problem = none }) buffer
            ≡ (ok tt, extended source buffer))
  publish-decode c path o w compressed apart fits h =
      let (source, bytes, comp, found, got, encoded, held, _) =
        publish_describes_result os (encode_bytes p reads) c compressed path o w apart h in
      (
        source,
        bytes,
        comp,
        found,
        got,
        held,
        encode_bytes-IsRead comp source bytes (get-ne-none_compressor c comp compressed got)
            (subst (λ n. 32 + n + n / 6 ≤ 4294967295) (size-ok path source w found) fits) encoded,
      )
