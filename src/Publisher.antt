-- ===== src/Publisher.antt =====
-- internal/agent/util/publish/publisher.go
pub mod Results
pub mod Described
pub mod Decoded
use application_profiler.Base.{
  ℕ, Bool, not, Result, ok, err, panic, Error, wrap, errorf, Option, none, some, List, [], ◌∷◌,
  String, ◌<>◌, ◌==◌, if◌then◌else◌, lookup, map,
}
use application_profiler.External.{External}
use application_profiler.Api.Outputs.{OutputType}
use application_profiler.Compressor.{
  CompressorType, Compressor, no_compressor, gzip, extension_of, get,
}
use application_profiler.World.{Files, Event, result, ChunkData, ResultData, Command}
use application_profiler.Os.{Os, Completed}
use application_profiler.FileSystem.{exists, list, size, read_file, remove, checksum, put, content}
use application_profiler.Io.{
  Io, pure, fail, ◌>>=◌, ◌>>◌, wrapped, fail_if, require, run, get_files, change_files, lift,
  emit_event,
}

module _ (os : Os) where
  -- `os.Open`, for reading
  unfoldable pub open_file : String → Io String
  unfolding read_file
  open_file f = get_files >>= λ fs. lift (read_file os f fs)

  -- `os.Create`
  unfoldable pub create_file : String → Io (Unit {0})
  unfolding put
  create_file f =
      get_files >>= λ fs. fail_if (λ e. e) (os.create_error f fs) >> change_files (put f "")

  -- The methods `Encode`, from bytes to bytes; they call third-party packages.
  module _ (encode : Compressor → String → Result String) where
    unfoldable pub compress : CompressorType → Compressor → String → String → Io (Unit {0})
    unfolding put
    compress compressor_type comp path result_file =
        if compressor_type == no_compressor
        then pure tt
        else get_files >>= λ fs.
            wrapped ("could not compress file " <> result_file)
              (lift (encode comp (content path fs)))
            >>= λ bytes. change_files (put result_file bytes)

    -- The result file, created, or the file itself if no compressor is wanted.
    unfoldable pub open_result : CompressorType → String → Io (Unit {0})
    unfolding open_file create_file
    open_result compressor_type result_file =
        if compressor_type == no_compressor
        then wrapped ("could not open file " <> result_file) (open_file result_file)
          >>= (λ _. pure tt)
        else wrapped ("could not create result file " <> result_file) (create_file result_file)

    -- The event for a file that was published whole.
    unfoldable pub announce : CompressorType → String → OutputType → Io (Unit {0})
    unfolding size checksum
    announce compressor_type result_file event_type = get_files >>= λ fs. emit_event (
        result (record {
          result_type = event_type;
          file = result_file;
          file_size_in_bytes = size result_file fs;
          checksum = checksum os result_file fs;
          compressor_type = compressor_type;
          chunks = [];
        }))

    -- `Do`
    unfoldable pub publish : CompressorType → String → OutputType → Io (Unit {0})
    unfolding open_result compress extension_of get announce
    publish compressor_type path event_type = do
      _ ← open_file path
      open_result compressor_type (path <> extension_of compressor_type)
      comp ← lift (get compressor_type)
      compress compressor_type comp path (path <> extension_of compressor_type)
      announce compressor_type (path <> extension_of compressor_type) event_type

  unfoldable pub chunk_data : Files → String → ChunkData
  unfolding size checksum
  chunk_data fs f = record { file = f; file_size_in_bytes = size f fs; checksum = checksum os f fs }

  abbrev gzip_command : String → Command
  gzip_command file = record { name = "gzip"; args = "-3" ∷ file ∷ [] }

  abbrev split_command : String → String → Command
  split_command file chunk_size = record {
    name = "split";
    args = "-b" ∷ chunk_size ∷ (file <> ".gz") ∷ (file <> ".gz.") ∷ [];
  }

  -- `DoWithNativeGzipAndSplit`. Both commands write their errors to one buffer.
  unfoldable pub publish_chunks : External → String → String → OutputType → Io (Unit {0})
  unfolding chunk_data run list size remove
  publish_chunks x file chunk_size event_type = do
    fs ← get_files
    require (exists file fs) (errorf ("file " <> (file <> " does not exist")))
    require (not (x.is_blank chunk_size)) (errorf "chunk size is mandatory")
    zipped ← run os (gzip_command file)
    fail_if (wrap ("gzip failed on file " <> (file <> ("; detail: " <> zipped.stderr))))
        zipped.error
    cut ← run os (split_command file chunk_size)
    fail_if
        (wrap
          ("split failed on file " <> (file <> (".gz; detail: " <> (zipped.stderr <> cut.stderr)))))
        cut.error
    whole ← get_files
    change_files (λ fs. (remove os (file <> ".gz") fs).1)
    fs ← get_files
    emit_event (
        result (record {
          result_type = event_type;
          file = file <> ".gz";
          file_size_in_bytes = size (file <> ".gz") whole;
          checksum = "";
          compressor_type = gzip;
          chunks = map (chunk_data fs) (list (file <> ".gz.*") fs);
        }))
