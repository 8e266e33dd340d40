-- ===== src/Compressor/Streams.antt =====
-- The `io.Reader`, the `io.Writer` and the calls on them that the compressors make.
use application_profiler.Base.{
  Result, ok, err, panic, Error, Option, none, some, List, [], ◌∷◌, String, ◌<>◌,
}

-- What a reader still gives: the pieces that its calls of `Read` return, then the end of the input
-- or an error.
pub record Reader : Type 0 where
  pub pieces : List String
  pub problem : Option Error

-- What a writer has taken. It refuses bytes with an error, after it took a first part of them; that
-- may depend on what it took before.
pub record Writer : Type 0 where
  pub written : String
  pub refusal : String → String → Option (String × Error)

unfoldable pub joined : List String → String
joined [] = ""
joined (p ∷ ps) = p <> joined ps

abbrev pub ended_by : Option Error → Result (Unit {0})
ended_by none = ok tt
ended_by (some e) = err e

-- `Write`
abbrev pub take_bytes : String → Option (String × Error) → Writer → Result (Unit {0}) × Writer
take_bytes b none w = (ok tt, record w { written = w.written <> b })
take_bytes b (some (part, e)) w = (err e, record w { written = w.written <> part })

unfoldable pub write : String → Writer → Result (Unit {0}) × Writer
write b w = take_bytes b (w.refusal w.written b) w

-- What follows a call that may have failed.
unfoldable pub after_ok :
    {W : Type 0} → (W → Result (Unit {0}) × W) → Result (Unit {0}) × W → Result (Unit {0}) × W
after_ok k (ok _, w) = k w
after_ok k (err e, w) = (err e, w)
after_ok k (panic, w) = (panic, w)

-- `io.Copy(w, src)`, where `put` writes one piece.
unfoldable pub copy :
    {W : Type 0}
    → (String → W → Result (Unit {0}) × W)
    → List String
    → Option Error
    → W
    → Result (Unit {0}) × W
unfolding after_ok
copy put [] problem w = (ended_by problem, w)
copy put (p ∷ ps) problem w = after_ok (copy put ps problem) (put p w)

-- `io.ReadAll`, where only a read without an error is used.
unfoldable pub read_all : Reader → Result String
unfolding joined
read_all src = elim src.problem [ none ↦ ok (joined src.pieces) | some e ↦ err e ]

-- Bytes, if a call made them, are written to the writer.
unfoldable pub deliver : Result String → Writer → Result (Unit {0}) × Writer
unfolding write
deliver (ok d) dst = write d dst
deliver (err e) dst = (err e, dst)
deliver panic dst = (panic, dst)

-- An empty writer that takes all bytes, such as a buffer.
abbrev pub buffer : Writer
buffer = record { written = ""; refusal = λ s b. none }
