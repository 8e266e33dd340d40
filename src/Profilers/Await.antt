-- ===== src/Profilers/Await.antt =====
-- The wait of node_dummy.go for a heap snapshot.
use application_profiler.Base.{
  ℕ, zero, suc, ◌+◌, ◌≤◌, ◌≡◌, refl, ap, ◌∙◌, false, Result, ok, List, [], ◌∷◌, ◌++◌, String, ◌==◌,
  arith,
}
use application_profiler.World.{World, Act, event, sleep, run_command, signal}
use application_profiler.FileSystem.{size}
use application_profiler.Io.{◌>>=◌, pure, fail, wait, get_files, change_files}
use application_profiler.Profilers.Env.{Env}
use application_profiler.Profilers.Node.{tick, snapshot_in, await_snapshot}

abbrev is_sleep : Act → ℕ
is_sleep (sleep d) = 1
is_sleep (event e) = 0
is_sleep (run_command c) = 0
is_sleep (signal p n) = 0

-- How often the agent waited.
abbrev pub waits : List Act → ℕ
waits [] = 0
waits (a ∷ acts) = is_sleep a + waits acts

waits-append : (xs ys : List Act) → waits (xs ++ ys) ≡ waits xs + waits ys
waits-append [] ys = omega arith
waits-append (x ∷ xs) ys = omega (arith, waits-append xs ys)

module _ (env : Env) (pid cwd : String) where
  waits-tick : (w : World) → waits (tick env w).1.acts ≡ waits w.acts + 1
  unfolding tick ◌>>=◌ wait change_files
  waits-tick w = omega (arith, waits-append w.acts _)

  tick-ok : (w : World) → (tick env w).0 ≡ ok tt
  unfolding tick ◌>>=◌ wait change_files
  tick-ok w = refl

  -- The wait ends: it takes no more seconds than there are retries, and one.
  pub await_snapshot_bounded :
      (retries file_size current : ℕ) (w : World)
      → waits (await_snapshot env pid cwd retries file_size current w).1.acts
        ≤ waits w.acts + retries + 1
  unfolding await_snapshot ◌>>=◌ get_files pure fail
  await_snapshot_bounded zero n c w = ground (arith, waits-tick w, tick-ok w)
  await_snapshot_bounded (suc retries) n c w =
      let u = (tick env w).1 in
      let f = snapshot_in env cwd u.files in
      ground (
        arith,
        waits-tick w,
        tick-ok w,
        await_snapshot_bounded retries c c u,
        await_snapshot_bounded retries (size f u.files) (size f u.files) u,
      )

  -- What the wait ends with is the first snapshot of the directory at that time.
  pub await_snapshot_finds :
      (retries file_size current : ℕ) (w : World) (f : String)
      → (await_snapshot env pid cwd retries file_size current w).0 ≡ ok f
      → (f == "" ≡ false)
        × (snapshot_in env cwd (await_snapshot env pid cwd retries file_size current w).1.files ≡ f)
  unfolding await_snapshot ◌>>=◌ get_files pure fail
  await_snapshot_finds zero n c w f h = ground (arith, tick-ok w)
  await_snapshot_finds (suc retries) n c w f h =
      let u = (tick env w).1 in
      let g = snapshot_in env cwd u.files in
      ground (
        arith,
        tick-ok w,
        await_snapshot_finds retries c c u f,
        await_snapshot_finds retries (size g u.files) (size g u.files) u f,
      )

  goes_on :
      (retries n c : ℕ) (w : World)
      → snapshot_in env cwd (tick env w).1.files ≡ ""
      → await_snapshot env pid cwd (suc retries) n c w
        ≡ await_snapshot env pid cwd retries c c (tick env w).1
  unfolding await_snapshot ◌>>=◌ get_files wait change_files
  goes_on retries n c w none_yet = rw none_yet refl

  takes :
      (retries n c : ℕ) (w : World) (f : String)
      → (f == "" ≡ false)
      → snapshot_in env cwd (tick env w).1.files ≡ f
      → size f (tick env w).1.files ≡ n
      → (await_snapshot env pid cwd (suc retries) n c w).0 ≡ ok f
  unfolding await_snapshot ◌>>=◌ get_files pure wait change_files
  takes retries n c w f named found same = rw found (ground (arith, tick-ok w))

  -- If there is no snapshot at first, and an empty one a second later, then that one is taken: the
  -- size that is compared is then that of no file.
  pub await_snapshot_takes_empty :
      (retries : ℕ) (w : World) (f : String)
      → (f == "" ≡ false)
      → snapshot_in env cwd (tick env w).1.files ≡ ""
      → snapshot_in env cwd (tick env (tick env w).1).1.files ≡ f
      → size f (tick env (tick env w).1).1.files ≡ 0
      → (await_snapshot env pid cwd (suc (suc retries)) 1 0 w).0 ≡ ok f
  await_snapshot_takes_empty retries w f named none_yet found empty =
      ap (λ (v : Result String × World). v.0) (goes_on (suc retries) 1 0 w none_yet)
      ∙ takes retries 0 0 (tick env w).1 f named found empty
