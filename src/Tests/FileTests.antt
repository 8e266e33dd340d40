-- ===== src/Tests/FileTests.antt =====
-- The names of result files, at concrete inputs.
use application_profiler.Base.{◌≡◌, ℕ, refl, String}
use application_profiler.Base.Digits.{itoa}
use application_profiler.FilePath.{join_paths}
use application_profiler.ResultFile.{get_result_file, get_file_extension}
use application_profiler.ResultFile.Unique.{get_result_file-injective}

flame : get_result_file "/tmp" "bpf" "flamegraph" "12" 3 ≡ "/tmp/agent-flamegraph-12-3.svg"
unfolding get_result_file get_file_extension join_paths itoa
flame = refl

abbrev one_pid : String
one_pid = "12"

abbrev round : ℕ
round = 3

-- One process in one round.
get_result_file-injective_example : (one_pid ≡ one_pid) × (round ≡ round)
get_result_file-injective_example =
    get_result_file-injective "/tmp" "bpf" "flamegraph" one_pid one_pid round round refl refl refl
