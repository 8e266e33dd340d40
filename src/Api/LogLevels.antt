-- ===== src/Api/LogLevels.antt =====
-- api/log_levels.go
use application_profiler.Base.{Bool, List, [], ◌∷◌, String}
use application_profiler.External.{External}

abbrev pub LogLevel : Type 0
LogLevel = String

abbrev pub info_level : LogLevel
info_level = "info"

abbrev pub warn_level : LogLevel
warn_level = "warn"

abbrev pub debug_level : LogLevel
debug_level = "debug"

abbrev pub error_level : LogLevel
error_level = "error"

abbrev pub log_levels : List LogLevel
log_levels = info_level ∷ warn_level ∷ debug_level ∷ "trace" ∷ error_level ∷ "panic" ∷ []

unfoldable pub is_supported_log_level : External → String → Bool
is_supported_log_level x log_level = x.contains log_levels log_level
