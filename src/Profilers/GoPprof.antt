-- ===== src/Profilers/GoPprof.antt =====
-- internal/agent/profiler/go_pprof.go
use application_profiler.Base.{
  ◌&&◌, ◌||◌, not, Error, wrap, errorf, List, [], ◌∷◌, Option, none, some, Result, ok, err, panic,
  String, ◌<>◌, ◌==◌, if◌then◌else◌,
}
use application_profiler.Base.Int.{ℤ, pos}
use application_profiler.Base.Text.{trim_space, is_empty}
use application_profiler.Base.Text.Searching.{
  contains_part, fields, atoi, split_last, strip_prefix, strip_digit, leading_digits,
}
use application_profiler.Api.Outputs.{heap_dump, pprof, raw}
use application_profiler.Job.{ProfilingJob}
use application_profiler.Legend.{raw_lines, fits, drop_cr}
use application_profiler.World.{Command}
use application_profiler.Os.{Completed}
use application_profiler.FileSystem.{write}
use application_profiler.Publisher.{publish}
use application_profiler.Io.{
  Io, pure, fail, ◌>>=◌, ◌>>◌, fail_if, wrapped, run, get_job, change_files, lift,
}
use application_profiler.Action.Run.{Profiler}
use application_profiler.Profilers.Env.{Env, interval_text, timed}
use application_profiler.Profilers.Targets.{set_up_targets, invoke_each, remove_results, file_of}

abbrev pub go_pprof_delay_between_jobs : ℤ
go_pprof_delay_between_jobs = pos 2_000_000_000

abbrev pub default_pprof_port : String
default_pprof_port = "8080"

-- The rest of a match of `HTTP/\d(?:\.\d)? (\d{3})` behind its first digit: the three digits.
unfoldable pub status_behind : String → Option String
unfolding strip_prefix leading_digits
status_behind s = elim (strip_prefix " " s) [
  | some t ↦ leading_digits 3 t
  | none ↦ elim (strip_prefix "." s) [
    | none ↦ none
    | some t ↦ elim (strip_digit t) [
      | none ↦ none
      | some u ↦ elim (strip_prefix " " u) [ none ↦ none | some v ↦ leading_digits 3 v ]
    ]
  ]
]

unfoldable pub status_here : String → Option String
unfolding strip_prefix status_behind
status_here s = elim (strip_prefix "HTTP/" s) [
  | none ↦ none
  | some t ↦ elim (strip_digit t) [ none ↦ none | some u ↦ status_behind u ]
]

-- `wgetHTTPStatus.FindStringSubmatch`: the first match in the text.
unfoldable pub wget_http_status : String → Option String
unfolding status_here
wget_http_status String.[] = none
wget_http_status (String.◌∷◌ c s) = elim (status_here (String.◌∷◌ c s)) [
  | some status ↦ some status
  | none ↦ wget_http_status s
]

-- `url` is printed by the verb `%q`, which the parameter writes out.
unfoldable pub pprof_scrape_error : (String → String) → String → String → String → Error → Error
unfolding wget_http_status trim_space contains_part
pprof_scrape_error quoted port target_url stderr e =
    let msg = trim_space stderr in
    let other =
      if contains_part msg "Connection refused"
      then errorf ("nothing listening on :" <> port)
      else wrap ("failed to nsenter+wget " <> (quoted target_url <> (" error " <> msg))) e in
    elim (wget_http_status msg) [
      | none ↦ other
      | some status ↦
          if status == "401" || status == "403"
          then errorf ("the pprof endpoint on :" <> (port <> " requires authentication"))
          else if status == "404"
          then errorf
              ("no /debug/pprof handler on :" <> (port <> " (is net/http/pprof registered?)"))
          else other
    ]

-- The port of a field: what stands behind its last colon, if that is a number.
unfoldable pub port_of_field : String → Option String
unfolding split_last atoi
port_of_field field = elim (split_last b':' field) [
  | none ↦ none
  | some (before, behind) ↦
      if not (is_empty before) && (not (is_empty behind) && (atoi behind).1)
      then some behind
      else none
]

unfoldable pub first_port : List String → Option String
unfolding port_of_field
first_port [] = none
first_port (field ∷ more) = elim (port_of_field field) [
  | some port ↦ some port
  | none ↦ first_port more
]

-- The loop over the lines of `ss`. A line that the scanner's buffer cannot hold ends it.
unfoldable pub port_in_lines : String → List String → Result String
unfolding first_port contains_part fields drop_cr
port_in_lines pid [] = err (errorf "no listening port found for PID")
port_in_lines pid (line ∷ lines) =
    let rest = port_in_lines pid lines in
    if not (fits line)
    then err (errorf "bufio.Scanner: token too long")
    else if not (contains_part (drop_cr line) "LISTEN") || not (contains_part (drop_cr line) pid)
    then rest
    else elim (first_port (fields (drop_cr line))) [ some port ↦ ok port | none ↦ rest ]

abbrev pub ss_command : String → Command
ss_command pid = record { name = "nsenter"; args = "-t" ∷ pid ∷ "-n" ∷ "ss" ∷ "-tulnp" ∷ [] }

-- What the output of `ss` gives.
unfoldable pub listening_port : String → Completed → Result String
unfolding port_in_lines raw_lines
listening_port pid out = elim out.error [
  | some e ↦ err (wrap "failed to run ss" e)
  | none ↦ port_in_lines pid (raw_lines out.stdout)
]

module _ (env : Env) (quoted : String → String) where
  -- What `findListeningPortForPID` returns, as a value of the chain.
  unfoldable pub find_listening_port_for_pid : String → Io (Result String)
  unfolding run listening_port
  find_listening_port_for_pid pid =
      run env.os (ss_command pid) >>= λ out. pure (listening_port pid out)

  abbrev wget_command : String → String → String → Command
  wget_command pid target_url file_name = record {
    name = "nsenter";
    args = "-t" ∷ pid ∷ "-n" ∷ "wget" ∷ "-qO" ∷ file_name ∷ target_url ∷ [];
  }

  unfoldable pub scrape : String → String → String → String → Io (Unit {0})
  unfolding run pprof_scrape_error
  scrape pid port target_url file_name =
      run env.os (wget_command pid target_url file_name) >>= λ out.
      fail_if (pprof_scrape_error quoted port target_url out.stderr) out.error

  unfoldable pub heap_profile : String → String → String → Io (Unit {0})
  unfolding scrape
  heap_profile pid port file_name =
      scrape pid port ("http://127.0.0.1:" <> (port <> "/debug/pprof/heap?gc=1")) file_name

  unfoldable pub cpu_profile : ProfilingJob → String → String → String → Io (Unit {0})
  unfolding scrape interval_text
  cpu_profile job pid port file_name =
      scrape pid port
        ("http://127.0.0.1:" <> (port <> ("/debug/pprof/profile?seconds=" <> interval_text job)))
        file_name

  unfoldable pub convert_pprof_to_raw : String → Io String
  unfolding run
  convert_pprof_to_raw path = do
    out ← run env.os (record { name = "go"; args = "tool" ∷ "pprof" ∷ "--raw" ∷ path ∷ [] })
    fail_if
        (wrap (
          "failed to convert pprof output "
          <> (quoted path <> (" to raw format error " <> out.stderr))))
        out.error
    pure out.stdout

  -- Both profiles, in one file.
  unfoldable pub fetch_raw : ProfilingJob → String → String → Io (Unit {0})
  unfolding heap_profile cpu_profile convert_pprof_to_raw file_of write
  fetch_raw job pid port = do
    wrapped "failed to create CPU profile" (cpu_profile job pid port (file_of env job "cpu" pid))
    profile_raw ←
        wrapped "failed to convert CPU profile" (convert_pprof_to_raw (file_of env job "cpu" pid))
    wrapped "failed to fetch heap profile" (heap_profile pid port (file_of env job "heap" pid))
    heap_raw ←
        wrapped "failed to convert heap profile" (convert_pprof_to_raw (file_of env job "heap" pid))
    change_files (
        write env.os (file_of env job raw pid)
          ("heap dump\n " <> (heap_raw <> (" \n cpu dump\n " <> profile_raw))))

  unfoldable pub fetch_output : ProfilingJob → String → String → Io (Unit {0})
  unfolding heap_profile cpu_profile fetch_raw file_of
  fetch_output job pid port =
      if job.output_type == heap_dump
      then wrapped "failed to fetch heap profile"
          (heap_profile pid port (file_of env job job.output_type pid))
      else if job.output_type == pprof
      then wrapped "failed to fetch CPU profile"
          (cpu_profile job pid port (file_of env job job.output_type pid))
      else if job.output_type == raw
      then fetch_raw job pid port
      else fail (errorf "unsupported output type for Go pprof profiler")

  unfoldable pub fetch_profile : ProfilingJob → String → String → Io (Unit {0})
  unfolding fetch_output publish file_of
  fetch_profile job pid port =
      fetch_output job pid port
      >> publish env.os env.encode job.compressor (file_of env job job.output_type pid)
          job.output_type

  -- Where no port was found, the default one is tried, and an error says so.
  unfoldable pub fetch_from_port : ProfilingJob → String → Result String → Io (Unit {0})
  unfolding fetch_profile
  fetch_from_port job pid (ok port) = fetch_profile job pid port
  fetch_from_port job pid (err e) =
      wrapped
        ("could not detect the listening port ("
          <> (env.text e <> ("), so tried the default :" <> default_pprof_port)))
        (fetch_profile job pid default_pprof_port)
  fetch_from_port job pid panic = lift panic

  -- The function that `Invoke` runs for a process, with `fetchProfileFromPID`.
  unfoldable pub fetch_profile_from_pid : String → Io (Unit {0})
  unfolding find_listening_port_for_pid fetch_from_port
  fetch_profile_from_pid pid = do
    job ← get_job
    found ← find_listening_port_for_pid pid
    fetch_from_port job pid found

  abbrev set_up : Io (Unit {0})
  set_up = set_up_targets env

  abbrev pub invoke : Io (Unit {0})
  invoke = invoke_each env go_pprof_delay_between_jobs fetch_profile_from_pid

  abbrev clean_up : Io (Unit {0})
  clean_up = remove_results env

  unfoldable pub go_pprof_profiler : Profiler
  go_pprof_profiler = record { set_up = set_up; invoke = timed env invoke; clean_up = clean_up }
