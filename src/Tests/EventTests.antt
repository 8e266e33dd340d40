-- ===== src/Tests/EventTests.antt =====
-- Events as text, with a package for JSON that meets its documentation.
use application_profiler.Base.{
  ◌≡◌, refl, none, some, Error, errorf, List, [], ◌∷◌, ◌++◌, String, inr, ok,
}
use application_profiler.World.{ResultData}
use application_profiler.Api.Json.{text, object, field, no_fields}
use application_profiler.Api.EventTypes.{
  EventData, result_data, notice_data, zero_targets, zero_result, written, parse_event, notice_type,
}
use application_profiler.Api.EventTypes.Tags.{struct_json, read_over, fill, set_field, result_field}
use application_profiler.Api.EventTypes.Parsing.{
  line, checksum_of, parse_event-event_ln, parse_event_keeps_checksum,
}
use application_profiler.Tests.JsonCodec.{stack_json, stack_json-IsLossless}
use application_profiler.Log.{
  Console, new_logger, Call, event, error, message, perform_all, event_ln, is_print_logs_allowed,
}
use application_profiler.Log.Silence.{without_logs, perform_all-without_logs}
use application_profiler.Tests.Fixtures.{packages}

abbrev silent : Console
silent = record { logger = new_logger; lines = [] }

abbrev shown : Error → String
shown e = "failed"

parse_event-event_ln_example :
    (event_ln packages (struct_json stack_json) shown notice_type (notice_data "skipped 7") silent
      ≡ (
        none,
        record silent { lines = silent.lines ++ (line stack_json (notice_data "skipped 7") ∷ []) },
      ))
    × (parse_event (struct_json stack_json) (line stack_json (notice_data "skipped 7")) zero_targets
        ≡ (ok (none, notice_data "skipped 7"), written (notice_data "skipped 7") zero_targets))
unfolding is_print_logs_allowed
parse_event-event_ln_example =
    parse_event-event_ln stack_json stack_json-IsLossless packages shown (notice_data "skipped 7")
      silent refl

abbrev with_checksum : String → ResultData
with_checksum s = record zero_result { checksum = s }

parse_event_keeps_checksum_example :
    (v : EventData) × ((parse_event
        (struct_json stack_json)
        (line stack_json (result_data (with_checksum "")))
        (parse_event
          (struct_json stack_json)
          (line stack_json (result_data (with_checksum "0a")))
          zero_targets).1).0
      ≡ ok (none, v))
    × (checksum_of v ≡ "0a")
parse_event_keeps_checksum_example =
    parse_event_keeps_checksum stack_json stack_json-IsLossless (with_checksum "0a")
      (with_checksum "") refl

-- A chunk whose size is a text does not fit.
bad_size :
    read_over stack_json
      (result_data zero_result)
      (inr (object (field "file" (text "a") (field "file-size-in-bytes" (text "7") no_fields))))
    ≡ (some stack_json.mismatch, result_data (record zero_result { file = "a" }))
unfolding fill set_field result_field
bad_size = refl

abbrev calls : List (Call packages (struct_json stack_json) shown)
calls =
    message "info" "tool chosen"
    ∷ event notice_type (notice_data "skipped 7")
    ∷ error (errorf "no samples")
    ∷ message "debug" ""
    ∷ []

perform_all-without_logs_example :
    perform_all packages (struct_json stack_json) shown calls silent
    ≡ perform_all packages
        (struct_json stack_json)
        shown
        (without_logs packages (struct_json stack_json) shown calls)
        silent
perform_all-without_logs_example =
    perform_all-without_logs packages (struct_json stack_json) shown calls silent refl
