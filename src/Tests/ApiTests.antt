-- ===== src/Tests/ApiTests.antt =====
-- The choice of a tool, at concrete languages.
use application_profiler.Base.{◌≡◌, refl, true, ok}
use application_profiler.Api.Langs.{go, is_supported_language}
use application_profiler.Api.Outputs.{heap_dump, raw}
use application_profiler.Api.Tools.{bpf, austin}
use application_profiler.Api.Tables.{is_valid_profiling_tool, is_valid_output_type}
use application_profiler.Api.Choice.{get_profiling_tool}
use application_profiler.Api.Totality.{is_supporting, get_profiling_tool-is_supporting}
use application_profiler.Tests.Fixtures.{packages, packages-IsLawful}

get_profiling_tool-is_supporting_example :
    is_supporting raw (get_profiling_tool "python" raw) ≡ true
unfolding is_supported_language is_valid_profiling_tool is_valid_output_type
get_profiling_tool-is_supporting_example =
    get_profiling_tool-is_supporting packages "python" austin raw packages-IsLawful refl refl refl
      refl

-- The heap dump of a Go program is left to `bpf`, which cannot make one.
go_heap : get_profiling_tool go heap_dump ≡ ok bpf
unfolding get_profiling_tool
go_heap = refl
