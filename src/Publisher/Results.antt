-- ===== src/Publisher/Results.antt =====
-- How many results the publisher publishes.
use application_profiler.Base.{String, Result}
use application_profiler.External.{External}
use application_profiler.Api.Outputs.{OutputType}
use application_profiler.Compressor.{Compressor, CompressorType}
use application_profiler.Os.{Os}
use application_profiler.Io.Results.{IsQuiet, Publishes, quiet, publishes}
use application_profiler.Publisher.{
  open_file, create_file, open_result, compress, publish, publish_chunks, announce,
}

module _ (os : Os) where
  pub open_file-IsQuiet : (f : String) → IsQuiet (open_file os f)
  unfolding open_file
  open_file-IsQuiet f = search quiet

  pub create_file-IsQuiet : (f : String) → IsQuiet (create_file os f)
  unfolding create_file
  create_file-IsQuiet f = search quiet

  -- Publishing a file in chunks either fails and publishes nothing, or publishes one result.
  pub publish_chunks-Publishes :
      (x : External) (file chunk_size : String) (o : OutputType)
      → Publishes (publish_chunks os x file chunk_size o)
  unfolding publish_chunks
  publish_chunks-Publishes x file chunk_size o = search publishes depth 40 fits 4000

  module _ (encode : Compressor → String → Result String) where
    open_result-IsQuiet : (c : CompressorType) (f : String) → IsQuiet (open_result os encode c f)
    unfolding open_result
    open_result-IsQuiet c f = search (quiet, open_file-IsQuiet, create_file-IsQuiet)

    compress-IsQuiet :
        (c : CompressorType) (comp : Compressor) (f g : String)
        → IsQuiet (compress os encode c comp f g)
    unfolding compress
    compress-IsQuiet c comp f g = search quiet

    announce-Publishes :
        (c : CompressorType) (f : String) (o : OutputType) → Publishes (announce os encode c f o)
    unfolding announce
    announce-Publishes c f o = search publishes

    -- Publishing a file either fails and publishes nothing, or publishes one result.
    pub publish-Publishes :
        (c : CompressorType) (path : String) (o : OutputType)
        → Publishes (publish os encode c path o)
    unfolding publish
    publish-Publishes c path o =
        search
          (publishes, open_file-IsQuiet, open_result-IsQuiet, compress-IsQuiet, announce-Publishes)
          depth 40 fits 4000
