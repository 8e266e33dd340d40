-- ===== src/Tests/ProfilerTests.antt =====
-- The profilers on a small system.
use application_profiler.Base.{◌≢◌, refl, ok, []}
use application_profiler.Job.{ProfilingJob}
use application_profiler.World.{World, absent}
use application_profiler.Profilers.Bpf
use application_profiler.Profilers.Bpf.{bpf_profiler}
use application_profiler.Profilers.Rust.{bpf_rust-ne-ok}
use application_profiler.Base.{◌≡◌, true, ◌<>◌, String, List, [], ◌∷◌}
use application_profiler.Base.Text.Searching.{atoi, split_last, fields, contains_part}
use application_profiler.Base.Text.{join, split, has_prefix}
use application_profiler.FilePath.{join_paths}
use application_profiler.Glob.{glob_match, sort}
use application_profiler.Legend.{drop_cr}
use application_profiler.Os.{Os}
use application_profiler.Io.{◌>>=◌, wait, change_files}
use application_profiler.FileSystem.{first_match, list, matching, size}
use application_profiler.Profilers.Env.{Env}
use application_profiler.Profilers.Node.{tick, snapshot_in, await_snapshot}
use application_profiler.Profilers.GoPprof.{first_port, port_of_field, port_in_lines}
use application_profiler.Profilers.Ports.{Shows, port_in_lines-number}
use application_profiler.Profilers.Await.{await_snapshot_takes_empty}
use application_profiler.Profilers.Austin.Targets.{
  Proc, TargetFile, trim_suffix, base_name, library_in, libraries, select_files, candidates,
  austin_target_files,
}
use application_profiler.Profilers.Austin.Usable.{are_usable, austin_target_files-are_usable}
use application_profiler.Tests.ActionTests.{job}
use application_profiler.Tests.Fixtures.{env, machine}

-- The verb `%q`, for texts without quotes.
abbrev quote : String → String
quote s = "\"" <> (s <> "\"")

-- What `ss` prints for a program that listens on a port.
abbrev ss_lines : List String
ss_lines = "Netid State Local" ∷ "tcp LISTEN 0 4096 *:6060 *:* users:((app,pid=7,fd=3))" ∷ []

port_in_lines-number_example : ((atoi "6060").1 ≡ true) × Shows "7" ss_lines "6060"
unfolding port_in_lines first_port port_of_field split_last atoi fields contains_part drop_cr
port_in_lines-number_example = port_in_lines-number "7" ss_lines "6060" refl

abbrev rust_job : ProfilingJob
rust_job = record job { language = "rust"; tool = "bpf"; output_type = "flamegraph" }

abbrev before : World
before = record {
  job = rust_job;
  target_pids = [];
  directory = "";
  recordings = absent;
  files = [];
  acts = [];
}

bpf_rust-ne-ok_example : (Bpf.invoke_pid env "7" before).0 ≢ ok tt
bpf_rust-ne-ok_example = bpf_rust-ne-ok env rust_job refl refl "7" before refl

-- A snapshot appears, still empty, when the file `first` is there.
abbrev slow : Os
slow = record machine {
  meanwhile =
      λ fs. elim fs [ [] ↦ ("/app/first", "") ∷ [] | f ∷ more ↦ ("/app/a.heapsnapshot", "") ∷ [] ];
}

abbrev slow_env : Env
slow_env = record env { os = slow }

await_snapshot_takes_empty_example :
    (await_snapshot slow_env "7" "/app" 3 1 0 before).0 ≡ ok "/app/a.heapsnapshot"
unfolding tick ◌>>=◌ wait change_files snapshot_in first_match list matching glob_match join_paths
    size sort
await_snapshot_takes_empty_example =
    await_snapshot_takes_empty slow_env "7" "/app" 1 before "/app/a.heapsnapshot" refl refl refl
      refl

-- A kernel that shows the interpreter and the memory map of every process.
abbrev python_proc : Proc
python_proc = record {
  read_link = λ path. ok "/usr/bin/python3.14";
  read_text = λ path. ok "7f00-7f10 r-xp 0 08:01 7 /usr/lib/libpython3.14.so\n7f20-7f30 rw-p 0 0 0";
  readable = λ path. true;
}

abbrev python_files : List TargetFile
python_files =
    record { path = "/usr/bin/python3.14"; source = "/proc/7/exe" }
    ∷ record { path = "/usr/lib/libpython3.14.so"; source = "/proc/7/map_files/7f00-7f10" }
    ∷ []

austin_target_files-are_usable_example : are_usable python_proc.readable [] python_files ≡ true
unfolding austin_target_files candidates libraries library_in select_files trim_suffix base_name
    split split_last fields join join_paths has_prefix
austin_target_files-are_usable_example =
    austin_target_files-are_usable python_proc "7" python_files refl
