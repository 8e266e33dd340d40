-- ===== src/Lib.antt =====
-- The agent of application-profiler, which runs beside a container: it turns its arguments into a
-- job, finds the processes of the container, runs a profiling tool over each of them in one or
-- more rounds, and publishes what the tool produced.
--
-- The parts, the files that model them, and the code:
-- - api/*.go: languages, tools, output types, events, runtimes and log levels, with their tables
--   and the choice of a tool, are Api and its children (Langs, Tools, Outputs, Events, Runtimes,
--   LogLevels; Tables and Choice for profiling_tools.go and output_types.go; EventTypes for
--   event_types.go with ParseEvent, EventTypes/Tags for the JSON that the tags of its structures
--   give, over the JSON values and texts of Json).
-- - internal/agent/util/exec/exec.go is Exec.
-- - pkg/util/compressor: the types and the factory are Compressor, readers and writers
--   Compressor/Streams, the packages that compress Compressor/Packages, with their laws, and the
--   methods Encode and Decode Compressor/Methods; Compressor/RoundTrip has their laws, which
--   Publisher/Decoded joins with the publisher.
-- - internal/agent/job/profiling_job.go is Job. internal/agent/profiler/common/common.go is
--   ResultFile, and the functions of path/filepath that the agent calls are FilePath and Glob.
-- - internal/agent/action/profile/profile.go is Action: its arguments (Args), the validators
--   (Validate), getProfilingJob (GetJob) and Run (Run).
-- - internal/agent/util/container.go is Container: the runtimes (Runtime), the walk over the
--   process tree and the filter (Children), GetCandidatePIDs (Candidates).
--   internal/agent/util/runtime is Container.Containerd, Container.Crio and, with what they share
--   and the fake runtime, Container.Spec; Container.Runtimes makes the interface Container of
--   them.
-- - internal/agent/profiler/common/pids.go is Pids: the loop and the goroutines as a step
--   relation, what is reported after the wait as functions, and, in Pids.Serial, the schedule in
--   which one goroutine ends before the next starts.
-- - pkg/util/file/file.go is FileSystem, over the files as a map from names to contents.
-- - internal/agent/util/publish/publisher.go is Publisher.
-- - internal/agent/util/flamegraph is Flamegraph: the script with its options (Options), the
--   factory and the conversion (Grapher). internal/agent/profiler/utils.go is Legend.
-- - internal/agent/profiler: python.go, python_austin.go, ruby.go, bpf.go, perf.go, node_dummy.go,
--   go_pprof.go, jvm/async_profiler.go and jvm/jcmd.go are Profilers.Python, Profilers.Austin,
--   Profilers.Ruby, Profilers.Bpf, Profilers.Perf, Profilers.Node, Profilers.GoPprof,
--   Profilers.Async and Profilers.Jcmd (with the wait for a recording in Profilers.Jcmd.Recording,
--   and the goroutines around the channel of stopped processes as a step relation in
--   Profilers.Jcmd.Stops); factory.go, with the mock profiler of profiler_fake.go, is
--   Profilers.Factory; what they share is in Profilers.Env, Profilers.Targets and
--   Profilers.Flames.
-- - pkg/util/log/log.go is Log.
-- - cmd/agent/main.go is Agent: the flags and toArgs (Flags), runApp with NewAction, and main as
--   it goes without a signal (RunApp), and the goroutines of the process as a step relation
--   (Lifecycle).
--
-- How they interact: World is what the agent reads and changes, the running job, the profiler's
-- processes and directory, the channel of stopped recordings, the files, and the list of what it
-- did (events, sleeps, commands). Io is a function from a world to an outcome and a world; an
-- action that fails keeps what it changed before. An outcome (Base.Errors) is a value, an error,
-- or a panic. The interface Profiler is the record of that name in Action.Run; the modules of
-- Profilers fill it, and Action.Run runs any of them. The interfaces Container and Commander are
-- the records Containers and Commander of Container.
--
-- Code outside the repository is a parameter: the record External holds the functions of
-- go-commons-lang and lo, with IsLawful as what their documentation says; JsonText is what the
-- package for JSON does between values and texts, with IsLossless as what it documents, that a
-- value which is not nested too deeply is read back from its text, and struct_json reads and
-- writes the structures of the events over it, field by field (EventJson); Json of Container.Spec
-- is what it makes of the files of a container; Context is what the package cli makes of the
-- command line, and exits is the code with which it ends the process for an error of the Action,
-- if it does; takes is how long a call of CleanUp takes in the life of the process, if it returns;
-- returns says which goroutines of ProfilePIDs come to an end; Os holds what commands leave, the
-- errors of file operations, and what other processes do to the files meanwhile; Env bundles what
-- the profilers call; the publisher takes the encoders of the compressors as an argument, for
-- which encode_bytes stands with the repository's methods, over Packages, the packages that
-- compress, with IsLawful as what they document (each call of a writer of a stream passes its
-- bytes on at once); ParseDuration is the type of time.ParseDuration, which Durations defines, but
-- for how a text is quoted in an error and for the fraction of a unit, which Go computes with
-- float64; Seconds are the two computations with float64 in Run. The tests instantiate each of
-- them.
--
-- Bounds and fuel: the walk over a process tree takes fuel, and the number of processes is enough.
-- Every other loop is structural; the wait for a heap snapshot is one on its retries. The wait for
-- a recording has no bound in the code: it takes fuel, and ends if a check within the fuel finds
-- the recording ended; without fuel there is no result, which the model writes as a panic, as it
-- does where a goroutine waits for ever. Durations are unbounded integers in nanoseconds, where Go
-- has int64. Sizes and numbers of rounds are natural numbers. The number of whole seconds of an
-- interval is computed with integers; Go's float64 gives the same below 48 days.
--
-- Not modelled: times in events, the debug and warning messages of the other parts, JSON as text,
-- names of JSON fields that differ in case only, files that are not regular ones, partial writes
-- (but for those of the compressors), and the time that passes. The commands that look for
-- processes only read, and are not in the list of acts. The order of the goroutines is modelled in
-- Pids; the profilers as a whole are run in the serial schedule. The tools themselves are
-- commands. The error text of austin is read as ASCII. In the life of the process what Run and
-- CleanUp do is left open, but for how long CleanUp takes and that either may panic, and time
-- moves in units of the grace period's. The client of the Kubernetes API and the doubles of the
-- managers for tests are not modelled.
pub mod Base
pub mod External
pub mod Api
pub mod Compressor
pub mod Job
pub mod World
pub mod Os
pub mod Exec
pub mod Io
pub mod Glob
pub mod FilePath
pub mod FileSystem
pub mod ResultFile
pub mod Publisher
pub mod Flamegraph
pub mod Legend
pub mod Pids
pub mod Container
pub mod Durations
pub mod Profilers
pub mod Action
pub mod Log
pub mod Agent
mod Tests
