-- ===== src/Compressor/Methods.antt =====
-- The methods `Encode` and `Decode` of pkg/util/compressor/{None,gzip,snappy,lzo,zstd}.go. A method
-- returns its error beside the writer with what it wrote; the reader is not used any more.
use application_profiler.Base.{Result, ok, err, panic, none, some, List, String, ◌>>=◌}
use application_profiler.Compressor.{
  Compressor, none_compressor, snappy_compressor, gzip_compressor, lzo_compressor, zstd_compressor,
}
use application_profiler.Compressor.Streams.{
  Reader, Writer, write, copy, after_ok, read_all, deliver, buffer,
}
use application_profiler.Compressor.Packages.{
  Stream, Packages, Encoder, new_encoder, encoder_write, encoder_flush, encoder_close,
}

abbrev pub Outcome : Type 0
Outcome = Result (Unit {0}) × Writer

-- `NoneCompressor.Encode`
unfoldable pub none_encode : Reader → Writer → Outcome
none_encode src dst = (ok tt, dst)

-- `NoneCompressor.Decode`
unfoldable pub none_decode : Reader → Writer → Outcome
none_decode src dst = (ok tt, dst)

-- The deferred `_ = w.Close()`: its error is dropped.
unfoldable pub closed_after : Stream → Result (Unit {0}) × Encoder → Outcome
unfolding encoder_close
closed_after s (r, enc) = (r, (encoder_close s enc).1)

-- `GzipCompressor.Encode`
unfoldable pub gzip_encode : Stream → Reader → Writer → Outcome
unfolding closed_after after_ok copy encoder_write encoder_flush
gzip_encode s src dst =
    closed_after s
      (after_ok (encoder_flush s) (copy (encoder_write s) src.pieces src.problem (new_encoder dst)))

-- `io.Copy(dst, r)`, unless there is no reader
unfoldable pub copy_decoded : Result Reader → Writer → Outcome
unfolding copy write
copy_decoded (ok r) dst = copy write r.pieces r.problem dst
copy_decoded (err e) dst = (err e, dst)
copy_decoded panic dst = (panic, dst)

-- `GzipCompressor.Decode`
unfoldable pub gzip_decode : Stream → Reader → Writer → Outcome
unfolding copy_decoded
gzip_decode s src dst = copy_decoded (s.open_reader src) dst

-- `ZstdCompressor.Encode`
unfoldable pub zstd_encode : Stream → Reader → Writer → Outcome
unfolding closed_after after_ok copy encoder_write encoder_flush
zstd_encode s src dst = elim s.open_error [
  | none ↦
      closed_after s (
        after_ok (encoder_flush s)
          (copy (encoder_write s) src.pieces src.problem (new_encoder dst)))
  | some e ↦ (err e, dst)
]

-- `ZstdCompressor.Decode`
unfoldable pub zstd_decode : Stream → Reader → Writer → Outcome
unfolding copy_decoded
zstd_decode s src dst = copy_decoded (s.open_reader src) dst

module _ (p : Packages) where
  -- `SnappyCompressor.Encode`
  unfoldable pub snappy_encode : Reader → Writer → Outcome
  unfolding read_all deliver
  snappy_encode src dst = deliver (read_all src >>= p.snappy_pack) dst

  -- `SnappyCompressor.Decode`
  unfoldable pub snappy_decode : Reader → Writer → Outcome
  unfolding read_all deliver
  snappy_decode src dst = deliver (read_all src >>= p.snappy_unpack) dst

  -- `LzoCompressor.Encode`
  unfoldable pub lzo_encode : Reader → Writer → Outcome
  unfolding read_all deliver
  lzo_encode src dst = deliver (read_all src >>= λ b. ok (p.lzo_pack b)) dst

  -- `LzoCompressor.Decode`
  unfoldable pub lzo_decode : Reader → Writer → Outcome
  unfolding deliver
  lzo_decode src dst = deliver (p.lzo_unpack src) dst

  -- `Encode` of the interface
  unfoldable pub encode : Compressor → Reader → Writer → Outcome
  unfolding none_encode gzip_encode zstd_encode snappy_encode lzo_encode
  encode none_compressor src dst = none_encode src dst
  encode snappy_compressor src dst = snappy_encode src dst
  encode gzip_compressor src dst = gzip_encode p.gzip_stream src dst
  encode lzo_compressor src dst = lzo_encode src dst
  encode zstd_compressor src dst = zstd_encode p.zstd_stream src dst

  -- `Decode` of the interface
  unfoldable pub decode : Compressor → Reader → Writer → Outcome
  unfolding none_decode gzip_decode zstd_decode snappy_decode lzo_decode
  decode none_compressor src dst = none_decode src dst
  decode snappy_compressor src dst = snappy_decode src dst
  decode gzip_compressor src dst = gzip_decode p.gzip_stream src dst
  decode lzo_compressor src dst = lzo_decode src dst
  decode zstd_compressor src dst = zstd_decode p.zstd_stream src dst

  -- The bytes that `Encode` writes to an empty file, read in pieces from another.
  unfoldable pub encode_bytes : (String → List String) → Compressor → String → Result String
  unfolding encode
  encode_bytes reads c s =
      let r = encode c (record { pieces = reads s; problem = none }) buffer in
      r.0 >>= λ _. ok r.1.written
