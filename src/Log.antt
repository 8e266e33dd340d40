-- ===== src/Log.antt =====
-- pkg/util/log/log.go. What the package for JSON makes of data is a parameter; the times of log events
-- are left out.
pub mod Silence
use application_profiler.Base.{
  Bool, true, false, not, Option, none, some, Error, List, [], ◌∷◌, ◌++◌, String, ◌==◌,
  if◌then◌else◌, ◌⊎◌, inl, inr,
}
use application_profiler.External.{External}
use application_profiler.Api.EventTypes.{
  EventType, EventData, EventJson, error_data, log_data, log_type, error_type,
}
use application_profiler.Api.LogLevels.{LogLevel}

-- `Logger`; its lock makes each call one step.
pub record Logger : Type 0 where
  pub print_logs : Bool

-- `New`
abbrev pub new_logger : Logger
new_logger = record { print_logs = false }

-- The logger and the lines on standard output.
pub record Console : Type 0 where
  pub logger : Logger
  pub lines : List String

abbrev pub set_print_logs : Bool → Console → Console
set_print_logs b c = record c { logger = record { print_logs = b } }

unfoldable pub is_print_logs_allowed : Logger → EventType → Bool
is_print_logs_allowed l event_type = if not (event_type == log_type) then true else l.print_logs

module _ (x : External) (json : EventJson) (text : Error → String) where
  unfoldable pub event_ln : EventType → EventData → Console → Option Error × Console
  unfolding is_print_logs_allowed
  event_ln event_type d c = elim (json.marshal_data d) [
    | inl e ↦ (some e, c)
    | inr bytes ↦
        if is_print_logs_allowed c.logger event_type
        then (none, record c { lines = c.lines ++ (json.marshal_event event_type bytes ∷ []) })
        else (none, c)
  ]

  unfoldable pub error_ln : Error → Console → Console
  unfolding event_ln
  error_ln e c = (event_ln error_type (error_data (text e)) c).1

  unfoldable pub print_log_ln : LogLevel → String → Console → Console
  unfolding event_ln
  print_log_ln level msg c =
      if x.is_not_blank msg then (event_ln log_type (log_data level msg) c).1 else c

  -- A call of the package: `EventLn`, `ErrorLn`, or one of the functions for a level.
  pub data Call : Type 0 where
    event : EventType → EventData → Call
    error : Error → Call
    message : LogLevel → String → Call

  unfoldable pub perform : Call → Console → Console
  unfolding event_ln error_ln print_log_ln
  perform (event t d) c = (event_ln t d c).1
  perform (error e) c = error_ln e c
  perform (message level msg) c = print_log_ln level msg c

  unfoldable pub perform_all : List Call → Console → Console
  unfolding perform
  perform_all [] c = c
  perform_all (call ∷ calls) c = perform_all calls (perform call c)
