-- ===== src/Compressor.antt =====
-- pkg/util/compressor/compressor_types.go and compressor.go.
pub mod Streams
pub mod Packages
pub mod Methods
pub mod RoundTrip
use application_profiler.Base.{
  Bool, Result, ok, err, errorf, List, [], ◌∷◌, String, ◌<>◌, ◌==◌, if◌then◌else◌, lookup, none,
  some,
}
use application_profiler.External.{External}

-- `compressor.Type`
abbrev pub CompressorType : Type 0
CompressorType = String

abbrev pub no_compressor : CompressorType
no_compressor = "none"

abbrev pub snappy : CompressorType
snappy = "snappy"

abbrev pub gzip : CompressorType
gzip = "gzip"

abbrev pub lzo : CompressorType
lzo = "lzo"

abbrev pub zstd : CompressorType
zstd = "zstd"

abbrev pub compressors : List CompressorType
compressors = no_compressor ∷ snappy ∷ gzip ∷ lzo ∷ zstd ∷ []

unfoldable pub is_supported_compressor : External → String → Bool
is_supported_compressor x compressor = x.contains compressors compressor

abbrev pub extension_by_compressor : List (CompressorType × String)
extension_by_compressor =
    (no_compressor, "") ∷ (snappy, ".snappy") ∷ (gzip, ".gz") ∷ (lzo, ".lzo") ∷ (zstd, ".zst") ∷ []

-- `GetExtensionFileByCompressor[c]`
unfoldable pub extension_of : CompressorType → String
extension_of c = elim (lookup c extension_by_compressor) [ none ↦ "" | some e ↦ e ]

-- The implementations of the interface `Compressor`.
pub data Compressor : Type 0 where
  none_compressor snappy_compressor gzip_compressor lzo_compressor zstd_compressor : Compressor

-- `Get`
unfoldable pub get : CompressorType → Result Compressor
get c =
    if c == no_compressor
    then ok none_compressor
    else if c == snappy
    then ok snappy_compressor
    else if c == gzip
    then ok gzip_compressor
    else if c == lzo
    then ok lzo_compressor
    else if c == zstd
    then ok zstd_compressor
    else err (errorf ("could not find compressor for " <> c))
