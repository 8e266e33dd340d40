-- ===== src/Tests/CompressorTests.antt =====
-- A small package that compresses, and what is encoded and decoded with it.
use text.Mathlib.TextLemmas.{nil-append, cons-append, append-nil}
use application_profiler.Base.{
  ◌≡◌, refl, ap, ◌∙◌, ok, errorf, none, some, List, [], ◌∷◌, ◌++◌, String, ◌<>◌, arith, lookup,
}
use application_profiler.Compressor.{
  Compressor, gzip_compressor, none_compressor, get, extension_of,
}
use application_profiler.Compressor.Streams.{Writer, joined, buffer, write, copy, after_ok}
use application_profiler.Compressor.Packages.{
  Stream, Packages, IsLossless, IsLawful, passed_on, stream_bytes, pass_on, encoder_write,
  encoder_flush, encoder_close,
}
use application_profiler.Compressor.Methods.{
  encode, decode, none_encode, gzip_encode, closed_after, encode_bytes,
}
use application_profiler.Compressor.RoundTrip.{decode-encode, extended}
use application_profiler.FileSystem.{size}
use application_profiler.Io.{
  pure, ◌>>=◌, wrapped, fail_if, get_files, change_files, lift, emit_event,
}
use application_profiler.Publisher.{publish}
use application_profiler.Publisher.Decoded.{publish-decode}
use application_profiler.Tests.Fixtures.{machine}
use application_profiler.Tests.PublishTests.{before}

strip : String → String
strip String.[] = ""
strip (String.◌∷◌ k s) = s

strip-append : (s : String) → strip ("z" <> s) ≡ s
unfolding strip
strip-append s = rw (cons-append "z" String.[] s) (nil-append s)

-- A package that passes everything on when it is closed.
late : Stream
unfolding strip joined
late = record {
  open_error = none;
  feed = λ fed p. "";
  flush = λ ps. "";
  close = λ b ps. "z" <> joined ps;
  open_reader =
      λ src. ok (record { pieces = strip (joined src.pieces) ∷ []; problem = src.problem });
}

passed_on-late : (fed ps : List String) → passed_on late fed ps ≡ ""
unfolding passed_on late
passed_on-late fed [] = refl
passed_on-late fed (p ∷ ps) = nil-append _ ∙ passed_on-late (fed ++ (p ∷ [])) ps

stream_bytes-late : (ps : List String) → stream_bytes late ps ≡ "z" <> joined ps
unfolding stream_bytes late
stream_bytes-late ps =
    ap (λ s. s <> ("" <> ("z" <> joined ps))) (passed_on-late [] ps) ∙ nil-append _ ∙ nil-append _

late-IsLossless : IsLossless late
unfolding late joined
late-IsLossless = record {
  opens = refl;
  reads = λ ps src clean h. (
    record { pieces = strip (joined src.pieces) ∷ []; problem = src.problem },
    refl,
    clean,
    append-nil _ ∙ ap strip (h ∙ stream_bytes-late ps) ∙ strip-append (joined ps),
  );
}

abbrev small : Packages
unfolding late strip joined
small = record {
  gzip_stream = late;
  zstd_stream = late;
  snappy_pack = λ b. ok ("z" <> b);
  snappy_unpack = λ d. ok (strip d);
  lzo_pack = λ b. "z" <> b;
  lzo_unpack = λ src. ok (strip (joined src.pieces));
}

small-IsLawful : IsLawful small
unfolding late strip joined
small-IsLawful = record {
  gzip_lem = late-IsLossless;
  zstd_lem = late-IsLossless;
  snappy_lem = λ b fits. ("z" <> b, refl, ap ok (strip-append b));
  lzo_lem = λ b src clean h. ap ok (ap strip h ∙ strip-append b);
}

decode-encode_example :
    ((encode small gzip_compressor (record { pieces = "a" ∷ "b" ∷ []; problem = none }) buffer).0
      ≡ ok tt)
    × (decode small gzip_compressor (record { pieces = "za" ∷ "b" ∷ []; problem = none }) buffer
        ≡ (ok tt, extended (joined ("a" ∷ "b" ∷ [])) buffer))
unfolding joined encode small
decode-encode_example =
    decode-encode small small-IsLawful ("a" ∷ "b" ∷ []) gzip_compressor ("za" ∷ "b" ∷ []) buffer
      buffer (λ h. cc) (λ s b. refl) (λ s b. refl) (omega arith) refl

-- A disk that is full when the writer is closed: the end of the stream is lost, without an error.
abbrev full : Writer
full = record { written = ""; refusal = λ s b. some ("", errorf "no space left on device") }

close_error_is_dropped :
    gzip_encode late (record { pieces = "a" ∷ []; problem = none }) full ≡ (ok tt, full)
unfolding gzip_encode late joined copy after_ok encoder_write encoder_flush encoder_close
    closed_after pass_on write
close_error_is_dropped = refl

-- The compressor none copies nothing.
none_writes_nothing :
    encode small none_compressor (record { pieces = "a" ∷ []; problem = none }) buffer
    ≡ (ok tt, buffer)
unfolding encode none_encode
none_writes_nothing = refl

publish-decode_example :
    (source bytes : String) × (comp : Compressor) × (lookup "/tmp/agent-raw-7-1.txt" before.files
      ≡ some source)
    × (get "gzip" ≡ ok comp)
    × (lookup
          ("/tmp/agent-raw-7-1.txt" <> extension_of "gzip")
          (publish machine
            (encode_bytes small (λ s. s ∷ []))
            "gzip"
            "/tmp/agent-raw-7-1.txt"
            "raw"
            before).1.files
        ≡ some bytes)
    × (decode small comp (record { pieces = bytes ∷ []; problem = none }) buffer
        ≡ (ok tt, extended source buffer))
unfolding joined extension_of size publish ◌>>=◌ get_files lift wrapped fail_if pure change_files
    encode_bytes small emit_event
publish-decode_example =
    publish-decode machine small small-IsLawful (λ s. s ∷ []) append-nil "gzip"
      "/tmp/agent-raw-7-1.txt" "raw" before refl refl (omega arith) refl
