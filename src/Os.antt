-- ===== src/Os.antt =====
-- The operating system below the agent.
use application_profiler.Base.{Option, String, Error}
use application_profiler.Base.Int.{ℤ}
use application_profiler.World.{Command, Files}

-- What a command leaves: its output, its error, and the files as it changed them.
pub record Completed : Type 0 where
  pub stdout : String
  pub stderr : String
  pub error : Option Error
  pub files : Files

-- Commands with a text as standard input; the errors of opening, creating, removing or renaming a
-- file; `os.RemoveAll` and `os.Symlink`, which change whole directories; `syscall.Kill`; what other
-- processes do to the files during a second; the directory for temporary files; and `md5.Sum` in hexadecimal.
pub record Os : Type 0 where
  pub exec : Command → String → Files → Completed
  pub open_error : String → Files → Option Error
  pub create_error : String → Files → Option Error
  pub remove_error : String → Files → Option Error
  pub rename_error : String → String → Files → Option Error
  pub remove_tree : String → Files → Option Error × Files
  pub symlink : String → String → Files → Option Error × Files
  pub kill : ℤ → ℤ → Option Error
  pub meanwhile : Files → Files
  pub tmp_dir : String
  pub md5 : String → String
