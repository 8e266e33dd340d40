-- ===== src/Api/Events.antt =====
-- api/profiling_events.go
use application_profiler.Base.{Bool, List, [], ◌∷◌, String}
use application_profiler.External.{External}

abbrev pub ProfilingEvent : Type 0
ProfilingEvent = String

abbrev pub itimer : ProfilingEvent
itimer = "itimer"

-- `Cpu`, `Alloc`, `Lock`, `CacheMisses`, `Wall`, `Itimer`
abbrev pub supported_events : List ProfilingEvent
supported_events = "cpu" ∷ "alloc" ∷ "lock" ∷ "cache-misses" ∷ "wall" ∷ itimer ∷ []

unfoldable pub is_supported_event : External → String → Bool
is_supported_event x event = x.contains supported_events event
