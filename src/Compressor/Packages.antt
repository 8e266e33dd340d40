-- ===== src/Compressor/Packages.antt =====
-- The packages that compress: `compress/gzip`, `klauspost/compress/zstd`, `golang/snappy` and
-- `rasky/go-lzo`.
use application_profiler.Base.{
  Bool, true, false, ◌≡◌, ◌+◌, ◌/◌, ◌≤◌, Result, ok, err, panic, Error, Option, none, some, List,
  [], ◌∷◌, ◌++◌, String, ◌<>◌,
}
use application_profiler.Base.Text.{size_of}
use application_profiler.Compressor.Streams.{Reader, Writer, write, joined}

-- A package that compresses a stream. The bytes that it passes on depend on the pieces that it was
-- fed before: `feed` for a further piece, `flush` and `close` after the last one, where `close` comes
-- after `flush` or without it.
pub record Stream : Type 0 where
  pub open_error : Option Error
  pub feed : List String → String → String
  pub flush : List String → String
  pub close : Bool → List String → String
  pub open_reader : Reader → Result Reader

pub record Packages : Type 0 where
  pub gzip_stream : Stream
  pub zstd_stream : Stream
  pub snappy_pack : String → Result String
  pub snappy_unpack : String → Result String
  pub lzo_pack : String → String
  pub lzo_unpack : Reader → Result String

-- The writer of such a package: what it was fed, whether it was flushed since, the error that it met,
-- and the writer below it.
pub record Encoder : Type 0 where
  pub fed : List String
  pub flushed : Bool
  pub broken : Option Error
  pub target : Writer

-- The bytes that a stream passes on for pieces, after earlier ones.
unfoldable pub passed_on : Stream → List String → List String → String
passed_on s fed [] = ""
passed_on s fed (p ∷ ps) = s.feed fed p <> passed_on s (fed ++ (p ∷ [])) ps

-- All bytes for pieces that are fed, flushed and closed.
unfoldable pub stream_bytes : Stream → List String → String
unfolding passed_on
stream_bytes s ps = passed_on s [] ps <> (s.flush ps <> s.close true ps)

-- `w := gzip.NewWriter(dst)`
abbrev pub new_encoder : Writer → Encoder
new_encoder dst = record { fed = []; flushed = false; broken = none; target = dst }

-- Nothing is written if there are no bytes to pass on.
unfoldable pub pass_on : String → Writer → Result (Unit {0}) × Writer
unfolding write
pass_on String.[] w = (ok tt, w)
pass_on (String.◌∷◌ k b) w = write (String.◌∷◌ k b) w

-- The writers write no more after an error, and give it again.
module _ (s : Stream) where
  abbrev fed_with : String → Encoder → Result (Unit {0}) × Writer → Result (Unit {0}) × Encoder
  fed_with p enc (ok _, w) =
      (ok tt, record { fed = enc.fed ++ (p ∷ []); flushed = false; broken = none; target = w })
  fed_with p enc (err e, w) = (err e, record enc { broken = some e; target = w })
  fed_with p enc (panic, w) = (panic, record enc { target = w })

  -- `w.Write(p)`
  unfoldable pub encoder_write : String → Encoder → Result (Unit {0}) × Encoder
  unfolding pass_on
  encoder_write p enc = elim enc.broken [
    | none ↦ fed_with p enc (pass_on (s.feed enc.fed p) enc.target)
    | some e ↦ (err e, enc)
  ]

  abbrev flushed_with : Encoder → Result (Unit {0}) × Writer → Result (Unit {0}) × Encoder
  flushed_with enc (ok _, w) = (ok tt, record enc { flushed = true; target = w })
  flushed_with enc (err e, w) = (err e, record enc { broken = some e; target = w })
  flushed_with enc (panic, w) = (panic, record enc { target = w })

  -- `w.Flush()`
  unfoldable pub encoder_flush : Encoder → Result (Unit {0}) × Encoder
  unfolding pass_on
  encoder_flush enc = elim enc.broken [
    | none ↦ flushed_with enc (pass_on (s.flush enc.fed) enc.target)
    | some e ↦ (err e, enc)
  ]

  -- `w.Close()`, with the writer below it afterwards.
  unfoldable pub encoder_close : Encoder → Result (Unit {0}) × Writer
  unfolding pass_on
  encoder_close enc = elim enc.broken [
    | none ↦ pass_on (s.close enc.flushed enc.fed) enc.target
    | some e ↦ (err e, enc.target)
  ]

-- The reader of a stream gives back what was fed to its writer, if it reads what the writer passed on.
pub record IsLossless (s : Stream) : Type 0 where
  pub opens : s.open_error ≡ none
  pub reads :
      (ps : List String) (src : Reader)
      → src.problem ≡ none
      → joined src.pieces ≡ stream_bytes s ps
      → (back : Reader) × (s.open_reader src ≡ ok back)
        × (back.problem ≡ none)
        × (joined back.pieces ≡ joined ps)

-- `snappy.Encode` panics if its bound on the size of the result, 32 + n + n / 6, exceeds 32 bits.
pub record IsLawful (p : Packages) : Type 0 where
  pub gzip_lem : IsLossless p.gzip_stream
  pub zstd_lem : IsLossless p.zstd_stream
  pub snappy_lem :
      (b : String)
      → 32 + size_of b + size_of b / 6 ≤ 4294967295
      → (d : String) × (p.snappy_pack b ≡ ok d) × (p.snappy_unpack d ≡ ok b)
  pub lzo_lem :
      (b : String) (src : Reader)
      → src.problem ≡ none
      → joined src.pieces ≡ p.lzo_pack b
      → p.lzo_unpack src ≡ ok b
