-- ===== src/Compressor/RoundTrip.antt =====
-- What the compressors write is read back.
use text.Mathlib.TextLemmas.{
  append-nil as append-empty, append_assoc as append_texts_assoc, append_cancel_left,
}
use application_profiler.Base.{
  true, false, ◌≡◌, refl, sym, ap, ◌∙◌, ◌≢◌, ◌+◌, ◌/◌, ◌≤◌, ok, err, Error, Option, none, some,
  List, [], ◌∷◌, ◌++◌, String, ◌<>◌, append-nil, append_assoc,
}
use application_profiler.Base.Text.{size_of}
use application_profiler.Compressor.{
  Compressor, none_compressor, snappy_compressor, gzip_compressor, lzo_compressor, zstd_compressor,
}
use application_profiler.Compressor.Streams.{
  Writer, write, copy, after_ok, ended_by, read_all, deliver, joined,
}
use application_profiler.Compressor.Packages.{
  Stream, Packages, Encoder, pass_on, encoder_write, encoder_flush, encoder_close, passed_on,
  stream_bytes, IsLossless, IsLawful,
}
use application_profiler.Compressor.Methods.{
  Outcome, snappy_encode, snappy_decode, lzo_encode, lzo_decode, gzip_decode, zstd_decode,
  gzip_encode, zstd_encode, copy_decoded, closed_after, encode, decode,
}

-- The writer refuses nothing.
abbrev pub TakesAll : Writer → Type 0
TakesAll w = (s b : String) → w.refusal s b ≡ none

abbrev pub extended : String → Writer → Writer
extended b w = record w { written = w.written <> b }

write-TakesAll : (b : String) (w : Writer) → TakesAll w → write b w ≡ (ok tt, extended b w)
unfolding write
write-TakesAll b w h = rw (h w.written b) refl

extended-extended : (a b : String) (w : Writer) → extended b (extended a w) ≡ extended (a <> b) w
extended-extended a b w = ap (λ s. record w { written = s }) (append_texts_assoc w.written a b)

extended-empty : (w : Writer) → extended "" w ≡ w
extended-empty w = ap (λ s. record w { written = s }) (append-empty w.written)

abbrev encoder : List String → Writer → Encoder
encoder fed w = record { fed = fed; flushed = false; broken = none; target = w }

pass_on-TakesAll : (b : String) (w : Writer) → TakesAll w → pass_on b w ≡ (ok tt, extended b w)
unfolding pass_on
pass_on-TakesAll String.[] w h = ap (λ v. (ok tt, v)) (sym (extended-empty w))
pass_on-TakesAll (String.◌∷◌ k b) w h = write-TakesAll (String.◌∷◌ k b) w h

-- A copy of pieces, all of which the writer takes.
copy-TakesAll :
    (ps : List String) (w : Writer)
    → TakesAll w
    → copy write ps none w ≡ (ok tt, extended (joined ps) w)
unfolding copy joined
copy-TakesAll [] w h = ap (λ v. (ok tt, v)) (sym (extended-empty w))
copy-TakesAll (p ∷ ps) w h =
    rw (write-TakesAll p w h, copy)
      (copy-TakesAll ps (extended p w) h ∙ ap (λ v. (ok tt, v)) (extended-extended p (joined ps) w))

module _ (s : Stream) where
  encoder_write-TakesAll :
      (p : String) (fed : List String) (w : Writer)
      → TakesAll w
      → encoder_write s p (encoder fed w)
        ≡ (ok tt, encoder (fed ++ (p ∷ [])) (extended (s.feed fed p) w))
  unfolding encoder_write
  encoder_write-TakesAll p fed w h = rw (pass_on-TakesAll (s.feed fed p) w h, encoder_write) refl

  copy-encoder_write :
      (ps fed : List String) (problem : Option Error) (w : Writer)
      → TakesAll w
      → copy (encoder_write s) ps problem (encoder fed w)
        ≡ (ended_by problem, encoder (fed ++ ps) (extended (passed_on s fed ps) w))
  unfolding copy passed_on
  copy-encoder_write [] fed problem w h = rw (append-nil fed, extended-empty w) refl
  copy-encoder_write (p ∷ ps) fed problem w h =
      rw (encoder_write-TakesAll p fed w h, copy)
        (copy-encoder_write ps (fed ++ (p ∷ [])) problem (extended (s.feed fed p) w) h
          ∙ rw
              (
                append_assoc fed (p ∷ []) ps,
                extended-extended (s.feed fed p) (passed_on s (fed ++ (p ∷ [])) ps) w,
              )
              refl)

  -- The streaming encoders write the bytes of the whole stream.
  gzip_encode-stream_bytes :
      (ps : List String) (w : Writer)
      → TakesAll w
      → gzip_encode s (record { pieces = ps; problem = none }) w
        ≡ (ok tt, extended (stream_bytes s ps) w)
  unfolding gzip_encode closed_after after_ok encoder_flush encoder_close stream_bytes
  gzip_encode-stream_bytes ps w h = rw (copy-encoder_write ps [] none w h) (
      rw (pass_on-TakesAll (s.flush ps) (extended (passed_on s [] ps) w) h) (
        rw
          (pass_on-TakesAll (s.close true ps)
            (extended (s.flush ps) (extended (passed_on s [] ps) w)) h)
          (rw
            (
              extended-extended (s.flush ps) (s.close true ps) (extended (passed_on s [] ps) w),
              extended-extended (passed_on s [] ps) (s.flush ps <> s.close true ps) w,
            )
            refl)))

  gzip_encode_fails :
      (ps : List String) (e : Error) (w : Writer)
      → TakesAll w
      → (gzip_encode s (record { pieces = ps; problem = some e }) w).0 ≡ err e
  unfolding gzip_encode closed_after after_ok
  gzip_encode_fails ps e w h = rw (copy-encoder_write ps [] (some e) w h) refl

  zstd_encode_fails :
      (ps : List String) (e : Error) (w : Writer)
      → IsLossless s
      → TakesAll w
      → (zstd_encode s (record { pieces = ps; problem = some e }) w).0 ≡ err e
  unfolding zstd_encode gzip_encode
  zstd_encode_fails ps e w l h = rw (l.opens, zstd_encode) (gzip_encode_fails ps e w h)

  zstd_encode-stream_bytes :
      (ps : List String) (w : Writer)
      → IsLossless s
      → TakesAll w
      → zstd_encode s (record { pieces = ps; problem = none }) w
        ≡ (ok tt, extended (stream_bytes s ps) w)
  unfolding zstd_encode gzip_encode stream_bytes
  zstd_encode-stream_bytes ps w l h = rw (l.opens, zstd_encode) (gzip_encode-stream_bytes ps w h)

  copy_decoded-stream_bytes :
      (ps qs : List String) (out : Writer)
      → IsLossless s
      → TakesAll out
      → joined qs ≡ stream_bytes s ps
      → copy_decoded (s.open_reader (record { pieces = qs; problem = none })) out
        ≡ (ok tt, extended (joined ps) out)
  unfolding copy_decoded
  copy_decoded-stream_bytes ps qs out l h q =
      let (back, opened, clean, same) =
        l.reads ps (record { pieces = qs; problem = none }) refl q in
      ap (λ r. copy_decoded r out) opened
      ∙ ap (λ e. copy write back.pieces e out) clean
      ∙ copy-TakesAll back.pieces out h
      ∙ ap (λ t. (ok tt, extended t out)) same

-- What `Encode` writes, `Decode` reads.
unfoldable pub IsRead : Packages → Compressor → List String → String → Type 0
IsRead p c ps bytes =
    (qs : List String) (out : Writer)
    → TakesAll out
    → joined qs ≡ bytes
    → decode p c (record { pieces = qs; problem = none }) out ≡ (ok tt, extended (joined ps) out)

module _ (p : Packages) (l : IsLawful p) (ps : List String) where
  pub encode-IsRead :
      (c : Compressor) (dst : Writer)
      → c ≢ none_compressor
      → TakesAll dst
      → 32 + size_of (joined ps) + size_of (joined ps) / 6 ≤ 4294967295
      → (bytes : String) × (encode p c (record { pieces = ps; problem = none }) dst
          ≡ (ok tt, extended bytes dst))
        × IsRead p c ps bytes
  unfolding encode decode snappy_encode snappy_decode lzo_encode lzo_decode gzip_decode zstd_decode
      read_all deliver IsRead
  encode-IsRead none_compressor dst n h fits = absurd (n refl)
  encode-IsRead snappy_compressor dst n h fits =
      let (d, packed, unpacked) = l.snappy_lem (joined ps) fits in
      (
        d,
        ap (λ r. deliver r dst) packed ∙ write-TakesAll d dst h,
        λ qs out t q.
            ap (λ b. deliver (p.snappy_unpack b) out) q
            ∙ ap (λ r. deliver r out) unpacked
            ∙ write-TakesAll (joined ps) out t,
      )
  encode-IsRead gzip_compressor dst n h fits = (
    stream_bytes p.gzip_stream ps,
    gzip_encode-stream_bytes p.gzip_stream ps dst h,
    λ qs out t q. copy_decoded-stream_bytes p.gzip_stream ps qs out l.gzip_lem t q,
  )
  encode-IsRead lzo_compressor dst n h fits = (
    p.lzo_pack (joined ps),
    write-TakesAll (p.lzo_pack (joined ps)) dst h,
    λ qs out t q.
        ap (λ r. deliver r out)
          (l.lzo_lem (joined ps) (record { pieces = qs; problem = none }) refl q)
        ∙ write-TakesAll (joined ps) out t,
  )
  encode-IsRead zstd_compressor dst n h fits = (
    stream_bytes p.zstd_stream ps,
    zstd_encode-stream_bytes p.zstd_stream ps dst l.zstd_lem h,
    λ qs out t q. copy_decoded-stream_bytes p.zstd_stream ps qs out l.zstd_lem t q,
  )

  -- Every compressor but none: `Encode` of the pieces that a reader gives succeeds on a writer that
  -- takes all, and `Decode` of what was written, read in any pieces, writes the same bytes again.
  -- The input is small enough for snappy.
  pub decode-encode :
      (c : Compressor) (qs : List String) (dst out : Writer)
      → c ≢ none_compressor
      → TakesAll dst
      → TakesAll out
      → 32 + size_of (joined ps) + size_of (joined ps) / 6 ≤ 4294967295
      → (encode p c (record { pieces = ps; problem = none }) dst).1.written
        ≡ dst.written <> joined qs
      → ((encode p c (record { pieces = ps; problem = none }) dst).0 ≡ ok tt)
        × (decode p c (record { pieces = qs; problem = none }) out
            ≡ (ok tt, extended (joined ps) out))
  unfolding IsRead
  decode-encode c qs dst out n h t fits q =
      let (bytes, encoded, read) = encode-IsRead c dst n h fits in
      let added = sym (ap (λ (v : Outcome). v.1.written) encoded) ∙ q in
      (
        ap (λ (v : Outcome). v.0) encoded,
        read qs out t (sym (append_cancel_left dst.written bytes (joined qs) added)),
      )

  -- Every compressor but none: if the reader fails after some pieces, `Encode` returns its error.
  pub encode_fails :
      (c : Compressor) (e : Error) (dst : Writer)
      → c ≢ none_compressor
      → TakesAll dst
      → (encode p c (record { pieces = ps; problem = some e }) dst).0 ≡ err e
  unfolding encode snappy_encode lzo_encode read_all deliver
  encode_fails none_compressor e dst n h = absurd (n refl)
  encode_fails snappy_compressor e dst n h = refl
  encode_fails gzip_compressor e dst n h = gzip_encode_fails p.gzip_stream ps e dst h
  encode_fails lzo_compressor e dst n h = refl
  encode_fails zstd_compressor e dst n h = zstd_encode_fails p.zstd_stream ps e dst l.zstd_lem h
