-- ===== src/Profilers/Jcmd/Stops.antt =====
-- The goroutines that wait for recordings and the channel of stopped processes of jcmd.go, in any order
-- of their steps: `handleJcmdRecording` for each process, beside `CleanUp`.
pub mod Lost
use application_profiler.Base.{
  ℕ, ◌<◌, ◌≡◌, ◌≢◌, Bool, true, false, List, [], ◌∷◌, ◌++◌, String, length, eqb, if◌then◌else◌,
}

-- A goroutine that `polling` waits in its loop. One that is `ignoring` has received its own process,
-- and its caller waits for ever; one that has `recorded` has sent to `done`.
pub data Waiter : Type 0 where
  polling ignoring recorded : Waiter

-- `unsent` are the processes that `CleanUp` has still to send, and `sent` those that it sent.
pub record Stops : Type 0 where
  pub queue : List String
  pub is_closed : Bool
  pub unsent : List String
  pub sent : List String
  pub waiters : ℕ → Waiter

abbrev pub set_waiter : ℕ → Waiter → (ℕ → Waiter) → ℕ → Waiter
set_waiter i v f j = if eqb i j then v else f j

-- The channel as `SetUp` makes it, while the goroutines wait and `CleanUp` begins.
abbrev pub waiting : List String → Stops
waiting pids = record {
  queue = [];
  is_closed = false;
  unsent = pids;
  sent = [];
  waiters = λ i. polling;
}

-- One step, with room for `capacity` processes, where the goroutine `i` waits for the process
-- `pid_of i`. From a closed channel a goroutine receives an empty text.
pub data Step (capacity : ℕ) (pid_of : ℕ → String) (s : Stops) : Stops → Type 0 where
  send :
      (pid : String) (rest : List String)
      → s.unsent ≡ pid ∷ rest
      → s.is_closed ≡ false
      → length s.queue < capacity
      → Step capacity pid_of s
          (record s { queue = s.queue ++ (pid ∷ []); unsent = rest; sent = s.sent ++ (pid ∷ []) })
  close :
      s.unsent ≡ [] → s.is_closed ≡ false → Step capacity pid_of s (record s { is_closed = true })
  take_own :
      (i : ℕ) (queue : List String)
      → s.waiters i ≡ polling
      → s.queue ≡ pid_of i ∷ queue
      → Step capacity pid_of s
          (record s { queue = queue; waiters = set_waiter i ignoring s.waiters })
  take_other :
      (i : ℕ) (pid : String) (queue : List String)
      → s.waiters i ≡ polling
      → s.queue ≡ pid ∷ queue
      → pid ≢ pid_of i
      → Step capacity pid_of s (record s { queue = queue })
  take_nothing :
      (i : ℕ)
      → s.waiters i ≡ polling
      → s.queue ≡ []
      → s.is_closed ≡ true
      → "" ≢ pid_of i
      → Step capacity pid_of s s
  find_running :
      (i : ℕ)
      → s.waiters i ≡ polling
      → s.queue ≡ []
      → s.is_closed ≡ false
      → Step capacity pid_of s s
  find_ended :
      (i : ℕ)
      → s.waiters i ≡ polling
      → s.queue ≡ []
      → s.is_closed ≡ false
      → Step capacity pid_of s (record s { waiters = set_waiter i recorded s.waiters })

pub data Reach (capacity : ℕ) (pid_of : ℕ → String) (s : Stops) : Stops → Type 0 where
  here : Reach capacity pid_of s s
  next :
      {t u : Stops}
      → Reach capacity pid_of s t
      → Step capacity pid_of t u
      → Reach capacity pid_of s u
