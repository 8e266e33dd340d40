-- ===== src/Action/WellFormed.antt =====
-- What a job that `getProfilingJob` accepts satisfies.
use application_profiler.Base.{
  ◌≡◌, ◌≢◌, true, false, Bool, ok, panic, ◌||◌, ◌&&◌, ◌==◌, String, arith, Option, none, some, not,
  panic, NotErr, guard-NotErr, >>=-NotErr,
}
use application_profiler.Base.Int.{ℤ, ◌≤ℤ◌, ltb_ℤ}
use application_profiler.External.{External, IsLawful}
use application_profiler.Job.{ProfilingJob}
use application_profiler.Compressor.{is_supported_compressor}
use application_profiler.Api.Langs.{is_supported_language}
use application_profiler.Api.Events.{is_supported_event}
use application_profiler.Api.Outputs.{heap_dump, heap_snapshot}
use application_profiler.Api.Runtimes.{is_supported_container_runtime}
use application_profiler.Api.Tables.{is_valid_profiling_tool, is_valid_output_type}
use application_profiler.Api.Outputs.{OutputType}
use application_profiler.Api.Tools.{ProfilingTool}
use application_profiler.Action.Args.{
  Args, default_duration, default_heap_dump_split_in_chunk_size, default_event_type,
  default_compressor,
}
use application_profiler.Action.Validate.{select_tool, select_output_type, given}
use application_profiler.Action.GetJob.{
  ParseDuration, base_job, fill_job, finish_job, duration_or, text_or, get_profiling_job,
}
use application_profiler.Action.Chosen.{select_tool_total, select_output_type_total}

-- The outputs that are split in chunks.
abbrev pub is_split : String → Bool
is_split o = o == heap_dump || o == heap_snapshot

pub record IsValid (x : External) (j : ProfilingJob) : Type 0 where
  pub interval_within : j.interval ≤ℤ j.duration
  pub runtime_supported : is_supported_container_runtime x j.container_runtime ≡ true
  pub language_supported : is_supported_language x j.language ≡ true
  pub event_supported : is_supported_event x j.event ≡ true
  pub compressor_supported : is_supported_compressor x j.compressor ≡ true
  pub tool_valid : is_valid_profiling_tool j.tool j.language ≡ true
  pub output_valid : is_valid_output_type j.output_type j.tool ≡ true
  pub chunk_size : (is_split j.output_type && x.is_blank j.heap_dump_split_in_chunk_size) ≡ false

-- What the last steps leave alone, and the size of the chunks.
pub record Filled (x : External) (j k : ProfilingJob) : Type 0 where
  pub duration_kept : k.duration ≡ j.duration
  pub interval_kept : k.interval ≡ j.interval
  pub runtime_kept : k.container_runtime ≡ j.container_runtime
  pub language_kept : k.language ≡ j.language
  pub event_kept : k.event ≡ j.event
  pub compressor_kept : k.compressor ≡ j.compressor
  pub tool_kept : k.tool ≡ j.tool
  pub output_kept : k.output_type ≡ j.output_type
  pub chunk_size : (is_split k.output_type && x.is_blank k.heap_dump_split_in_chunk_size) ≡ false

not-eq-true : (b : Bool) → not b ≡ true → b ≡ false
not-eq-true b h = ground arith

module _ (x : External) (lawful : IsLawful x) (args : Args) where
  given_not_blank :
      (o : Option String) (old : String)
      → x.is_blank old ≡ false
      → x.is_blank (given x o old) ≡ false
  given_not_blank none old h = h
  given_not_blank (some s) old h = ground (arith, lawful.not_blank_lem s)

  pub fill_job-Filled : (j : ProfilingJob) → Filled x j (fill_job x args j)
  unfolding fill_job
  fill_job-Filled j = ground (
    arith,
    given_not_blank args.heap_dump_split_in_chunk_size default_heap_dump_split_in_chunk_size
        (lawful.blank_lem _),
  )

  -- The last steps always succeed.
  pub finish_job_total :
      (j : ProfilingJob)
      → is_supported_language x j.language ≡ true
      → (t : ProfilingTool) × (o : OutputType) × (select_tool x args.profiling_tool args.output_type
            j.language
          ≡ ok t)
        × (select_output_type x args.output_type t ≡ ok o)
        × (finish_job x args j ≡ ok (fill_job x args (record j { tool = t; output_type = o })))
        × (is_valid_profiling_tool t j.language ≡ true)
        × (is_valid_output_type o t ≡ true)
  unfolding finish_job
  finish_job_total j supported =
      let (t, tool_eq, tool_valid) =
        select_tool_total x lawful j.language args.profiling_tool args.output_type supported in
      let (o, output_eq, output_valid) =
        select_output_type_total x lawful j.language args.output_type t supported tool_valid in
      (t, o, tool_eq, output_eq, rw (tool_eq, output_eq), tool_valid, output_valid)

-- What `getProfilingJob` has checked when it comes to the last steps.
pub record Checked (x : External) (args : Args) (duration interval : ℤ) : Type 0 where
  pub interval_within : ltb_ℤ duration interval ≡ false
  pub runtime_supported : is_supported_container_runtime x args.target_container_runtime ≡ true
  pub language_supported : is_supported_language x args.lang ≡ true
  pub event_supported : is_supported_event x (text_or x default_event_type args.event_type) ≡ true
  pub compressor_supported :
      is_supported_compressor x (text_or x default_compressor args.compressor_type) ≡ true

module _ (x : External) (parse_duration : ParseDuration) where
  duration_or-ne-panic : (d : ℤ) (s : String) → duration_or x parse_duration d s ≢ panic
  unfolding duration_or
  duration_or-ne-panic d s = ground arith

module _ (x : External) (parse_duration : ParseDuration) (args : Args) where
  -- The arguments that pass the checks.
  abbrev pub Passes : Type 0
  Passes =
      (d : ℤ) × (i : ℤ) × (duration_or x parse_duration default_duration args.duration ≡ ok d)
      × (duration_or x parse_duration d args.interval ≡ ok i)
      × Checked x args d i

  -- If there is no error, the checks have passed.
  pub get_profiling_job_passed : NotErr (get_profiling_job x parse_duration args) → Passes
  unfolding get_profiling_job
  get_profiling_job_passed h =
      let (d, d_eq, h₁) = >>=-NotErr _ _ h (duration_or-ne-panic x parse_duration _ _) in
      let (i, i_eq, h₂) = >>=-NotErr _ _ h₁ (duration_or-ne-panic x parse_duration _ _) in
      let (within, h₃) = guard-NotErr _ _ _ h₂ in
      let (runtime, h₄) = guard-NotErr _ _ _ h₃ in
      let (language, h₅) = guard-NotErr _ _ _ h₄ in
      let (event, h₆) = guard-NotErr _ _ _ h₅ in
      let (compressor, h₇) = guard-NotErr _ _ _ h₆ in
      let checked : Checked x args d i = record {
        interval_within = not-eq-true _ within;
        runtime_supported = runtime;
        language_supported = language;
        event_supported = event;
        compressor_supported = compressor;
      } in
      (d, i, d_eq, i_eq, checked)

  -- After the checks only the last steps are left.
  pub get_profiling_job-eq-finish_job :
      (d i : ℤ)
      → duration_or x parse_duration default_duration args.duration ≡ ok d
      → duration_or x parse_duration d args.interval ≡ ok i
      → Checked x args d i
      → get_profiling_job x parse_duration args ≡ finish_job x args (base_job x args d i)
  unfolding get_profiling_job
  get_profiling_job-eq-finish_job d i d_eq i_eq checked = rw (
    d_eq, i_eq, checked.interval_within, checked.runtime_supported, checked.language_supported,
    checked.event_supported, checked.compressor_supported,
  )

module _ (x : External) (lawful : IsLawful x) (args : Args) (d i : ℤ)
    (checked : Checked x args d i) where
  fill_job-IsValid :
      (t : ProfilingTool) (o : OutputType)
      → is_valid_profiling_tool t args.lang ≡ true
      → is_valid_output_type o t ≡ true
      → IsValid x (fill_job x args (record (base_job x args d i) { tool = t; output_type = o }))
  unfolding base_job
  fill_job-IsValid t o tool_ok output_ok = ground (
    arith,
    fill_job-Filled x lawful args (record (base_job x args d i) { tool = t; output_type = o }),
  )

  base_job_supported : is_supported_language x (base_job x args d i).language ≡ true
  unfolding base_job
  base_job_supported = checked.language_supported

  -- After the checks a valid job is made, with no error and no panic.
  pub finish_job-IsValid :
      (j : ProfilingJob) × (finish_job x args (base_job x args d i) ≡ ok j) × IsValid x j
  unfolding base_job
  finish_job-IsValid =
      let (t, o, _, _, done, tool_ok, output_ok) =
        finish_job_total x lawful args (base_job x args d i) base_job_supported in
      (
        fill_job x args (record (base_job x args d i) { tool = t; output_type = o }),
        done,
        fill_job-IsValid t o tool_ok output_ok,
      )
