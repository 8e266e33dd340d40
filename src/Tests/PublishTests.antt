-- ===== src/Tests/PublishTests.antt =====
-- Files that are published, removed and drawn on a small system.
use application_profiler.Base.{◌≡◌, refl, ok, none, some, [], ◌∷◌, ◌++◌, String, ◌<>◌, lookup, map}
use application_profiler.Base.Text.{size_of, split}
use application_profiler.FilePath.{join_paths}
use application_profiler.Compressor.{Compressor, get, extension_of}
use application_profiler.Glob.{glob_match}
use application_profiler.World.{World, absent}
use application_profiler.FileSystem.{put, remove_all, read_file, checksum, size}
use application_profiler.FileSystem.Removal.{lookup-remove_all}
use application_profiler.Io.{
  pure, ◌>>=◌, wrapped, fail_if, get_files, change_files, lift, emit_event,
}
use application_profiler.Publisher.{
  publish, open_file, create_file, open_result, compress, announce,
}
use application_profiler.Publisher.Described.{publish_describes_result, published}
use application_profiler.Flamegraph.Grapher.{get_grapher, grapher_of}
use application_profiler.Flamegraph.Width.{get_grapher_forgets_width}
use application_profiler.Legend.{add_process_pid_legend, raw_lines, drop_last_empty}
use application_profiler.Legend.Lines.{with_process, split-add_process_pid_legend}
use application_profiler.Tests.ActionTests.{job}
use application_profiler.Tests.Fixtures.{packages, machine, encoded}

abbrev pub before : World
before = record {
  job = job;
  target_pids = [];
  directory = "";
  files = ("/tmp/agent-raw-7-1.txt", "main 1") ∷ ("/tmp/kept", "kept") ∷ [];
  recordings = absent;
  acts = [];
}

-- A file that is published with gzip.
after : World
after = (publish machine encoded "gzip" "/tmp/agent-raw-7-1.txt" "raw" before).1

publish_describes_result_example :
    (source bytes : String) × (comp : Compressor) × (lookup "/tmp/agent-raw-7-1.txt" before.files
      ≡ some source)
    × (get "gzip" ≡ ok comp)
    × (encoded comp source ≡ ok bytes)
    × (lookup ("/tmp/agent-raw-7-1.txt" <> extension_of "gzip") after.files ≡ some bytes)
    × (after.acts
        ≡ before.acts
          ++ (published "gzip"
                ("/tmp/agent-raw-7-1.txt" <> extension_of "gzip")
                "raw"
                (size_of bytes)
                (checksum machine ("/tmp/agent-raw-7-1.txt" <> extension_of "gzip") after.files)
              ∷ []))
unfolding after publish open_file create_file open_result compress announce extension_of get
    read_file put checksum size pure ◌>>=◌ wrapped fail_if get_files change_files lift emit_event
publish_describes_result_example =
    publish_describes_result machine encoded "gzip" refl "/tmp/agent-raw-7-1.txt" "raw" before refl
      refl

lookup-remove_all_example :
    lookup "/tmp/agent-raw-7-1.txt" (remove_all machine "/tmp" "agent-" before.files) ≡ none
unfolding glob_match join_paths
lookup-remove_all_example =
    lookup-remove_all machine (λ f fs. refl) "/tmp" "agent-" "/tmp/agent-raw-7-1.txt" before.files

-- Two lines, of which the first ends in a carriage return.
split-add_process_pid_legend_example :
    split (add_process_pid_legend packages "a;b 1\r\nc 2\n" "7") 10
    ≡ map (with_process "7") (raw_lines "a;b 1\r\nc 2\n") ++ ("" ∷ [])
unfolding raw_lines drop_last_empty split
split-add_process_pid_legend_example =
    split-add_process_pid_legend packages "a;b 1\r\nc 2\n" "7" refl refl refl

-- A job in Go that asks for a width.
abbrev wide : World
wide = record before {
  job = record job {
    language = "go";
    additional_arguments = ("flamegraph-width-in-pixels", "900") ∷ [];
  };
}

get_grapher_forgets_width_example :
    (get_grapher packages (get_grapher packages wide).1).0 ≡ ok (grapher_of packages "go" "")
get_grapher_forgets_width_example = get_grapher_forgets_width packages wide refl
