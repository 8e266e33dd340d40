-- ===== src/Profilers/Fetched.antt =====
-- The profilers for async-profiler, Node and Go publish one result for a process, or fail and publish
-- none.
use application_profiler.Base.{ℕ, Result, ok, err, panic, String, zero, suc, arith}
use application_profiler.Job.{ProfilingJob}
use application_profiler.Io.{lift}
use application_profiler.Io.Results.{IsQuiet, Publishes, quiet, publishes}
use application_profiler.Publisher.Results.{publish-Publishes, publish_chunks-Publishes}
use application_profiler.Profilers.Env.{Env}
use application_profiler.Profilers.Async
use application_profiler.Profilers.Node
use application_profiler.Profilers.GoPprof

panic-Publishes : Publishes {A = Unit {0}} (lift panic)
unfolding Publishes lift
panic-Publishes w = omega arith

module _ (env : Env) where
  pub async-Publishes : (pid : String) → Publishes (Async.invoke_pid env pid)
  unfolding Async.invoke_pid
  async-Publishes pid = search (publishes, publish-Publishes) depth 40 fits 4000

  tick-IsQuiet : IsQuiet (Node.tick env)
  unfolding Node.tick
  tick-IsQuiet = search quiet

  await-IsQuiet :
      (pid cwd : String) (retries file_size current : ℕ)
      → IsQuiet (Node.await_snapshot env pid cwd retries file_size current)
  unfolding Node.await_snapshot
  await-IsQuiet pid cwd zero n c = search (quiet, tick-IsQuiet) depth 40 fits 4000
  await-IsQuiet pid cwd (suc retries) n c =
      search (quiet, tick-IsQuiet, await-IsQuiet pid cwd retries) depth 40 fits 4000

  copy-IsQuiet : (src dst : String) → IsQuiet (Node.copy_file env src dst)
  unfolding Node.copy_file
  copy-IsQuiet src dst = search quiet depth 40 fits 4000

  -- For the process of a Node program, one result is published, or the profiler fails and publishes
  -- none.
  pub node-Publishes : (pid cwd : String) → Publishes (Node.invoke_pid env pid cwd)
  unfolding Node.invoke_pid
  node-Publishes pid cwd =
      search (publishes, await-IsQuiet, copy-IsQuiet, publish_chunks-Publishes) depth 40 fits 4000

  module _ (quoted : String → String) where
    scrape-IsQuiet : (pid port url f : String) → IsQuiet (GoPprof.scrape env quoted pid port url f)
    unfolding GoPprof.scrape
    scrape-IsQuiet pid port url f = search quiet depth 40 fits 4000

    heap-IsQuiet : (pid port f : String) → IsQuiet (GoPprof.heap_profile env quoted pid port f)
    unfolding GoPprof.heap_profile
    heap-IsQuiet pid port f = scrape-IsQuiet pid port _ f

    cpu-IsQuiet :
        (job : ProfilingJob) (pid port f : String)
        → IsQuiet (GoPprof.cpu_profile env quoted job pid port f)
    unfolding GoPprof.cpu_profile
    cpu-IsQuiet job pid port f = scrape-IsQuiet pid port _ f

    convert-IsQuiet : (f : String) → IsQuiet (GoPprof.convert_pprof_to_raw env quoted f)
    unfolding GoPprof.convert_pprof_to_raw
    convert-IsQuiet f = search quiet depth 40 fits 4000

    ruleset fetching = (quiet, heap-IsQuiet, cpu-IsQuiet, convert-IsQuiet)

    fetch_raw-IsQuiet :
        (job : ProfilingJob) (pid port : String)
        → IsQuiet (GoPprof.fetch_raw env quoted job pid port)
    unfolding GoPprof.fetch_raw
    fetch_raw-IsQuiet job pid port = search fetching depth 40 fits 4000

    fetch_output-IsQuiet :
        (job : ProfilingJob) (pid port : String)
        → IsQuiet (GoPprof.fetch_output env quoted job pid port)
    unfolding GoPprof.fetch_output
    fetch_output-IsQuiet job pid port = search (fetching, fetch_raw-IsQuiet) depth 40 fits 4000

    fetch_profile-Publishes :
        (job : ProfilingJob) (pid port : String)
        → Publishes (GoPprof.fetch_profile env quoted job pid port)
    unfolding GoPprof.fetch_profile
    fetch_profile-Publishes job pid port =
        search (publishes, fetch_output-IsQuiet, publish-Publishes) depth 40 fits 4000

    fetch_from_port-Publishes :
        (job : ProfilingJob) (pid : String) (r : Result String)
        → Publishes (GoPprof.fetch_from_port env quoted job pid r)
    unfolding GoPprof.fetch_from_port
    fetch_from_port-Publishes job pid (ok port) = fetch_profile-Publishes job pid port
    fetch_from_port-Publishes job pid (err e) =
        search (publishes, fetch_profile-Publishes) depth 40 fits 4000
    fetch_from_port-Publishes job pid panic = panic-Publishes

    find-IsQuiet : (pid : String) → IsQuiet (GoPprof.find_listening_port_for_pid env quoted pid)
    unfolding GoPprof.find_listening_port_for_pid
    find-IsQuiet pid = search quiet depth 40 fits 4000

    -- For the process of a Go program, one result is published, or the profiler fails and publishes
    -- none.
    pub go_pprof-Publishes :
        (pid : String) → Publishes (GoPprof.fetch_profile_from_pid env quoted pid)
    unfolding GoPprof.fetch_profile_from_pid
    go_pprof-Publishes pid =
        search (publishes, find-IsQuiet, fetch_from_port-Publishes) depth 40 fits 4000
