-- ===== src/Profilers/Austin/Targets.antt =====
-- `austinTargetFiles`: the files of the target that austin opens.
use application_profiler.Base.{
  Bool, not, ◌||◌, Result, ok, err, panic, wrap, List, [], ◌∷◌, String, ◌<>◌, ◌==◌, if◌then◌else◌,
  elem, none, some,
}
use application_profiler.Base.Text.{has_prefix, join, split}
use application_profiler.Base.Text.Searching.{fields, split_last}
use application_profiler.FilePath.{join_paths}

-- `austinTargetFile`
pub record TargetFile : Type 0 where
  pub path : String
  pub source : String

-- What the kernel shows of a process: links, files, and whether a file can be read.
pub record Proc : Type 0 where
  pub read_link : String → Result String
  pub read_text : String → Result String
  pub readable : String → Bool

abbrev pub proc_dir : String
proc_dir = "/proc"

-- `strings.TrimSuffix`
unfoldable pub trim_suffix : String → String → String
trim_suffix suffix String.[] = String.[]
trim_suffix suffix (String.◌∷◌ c s) =
    let rest = trim_suffix suffix s in
    if String.◌∷◌ c s == suffix then String.[] else String.◌∷◌ c rest

-- `filepath.Base`, for paths that do not end in a slash
unfoldable pub base_name : String → String
unfolding split_last
base_name path = elim (split_last b'/' path) [
  | none ↦ if path == "" then "." else path
  | some (before, behind) ↦ behind
]

-- The mapped libraries of Python in one line of the memory map, if it has six fields.
unfoldable pub library_in : String → List String → List TargetFile
unfolding trim_suffix base_name join join_paths has_prefix
library_in pid (range ∷ perms ∷ offset ∷ device ∷ inode ∷ f ∷ more) =
    let path = trim_suffix " (deleted)" (join (f ∷ more) " ") in
    if has_prefix "libpython" (base_name path)
    then record { path = path; source = join_paths (proc_dir ∷ pid ∷ "map_files" ∷ range ∷ []) }
      ∷ []
    else []
library_in pid _ = []

unfoldable pub libraries : String → List String → List TargetFile
unfolding library_in fields
libraries pid [] = []
libraries pid (line ∷ lines) = elim (library_in pid (fields line)) [
  | [] ↦ libraries pid lines
  | t ∷ ts ↦ t ∷ libraries pid lines
]

-- The candidates that are new, have an absolute path and can be read.
unfoldable pub select_files : (String → Bool) → List String → List TargetFile → List TargetFile
unfolding has_prefix
select_files readable seen [] = []
select_files readable seen (f ∷ fs) =
    let skipped = select_files readable seen fs in
    let rest = select_files readable (f.path ∷ seen) fs in
    if elem f.path seen || not (has_prefix "/" f.path)
    then skipped
    else if not (readable f.source)
    then rest
    else f ∷ rest

-- The interpreter and the libraries of Python.
unfoldable pub candidates : String → String → String → List TargetFile
unfolding trim_suffix join_paths libraries split
candidates pid exe maps =
    record {
      path = trim_suffix " (deleted)" exe;
      source = join_paths (proc_dir ∷ pid ∷ "exe" ∷ []);
    }
    ∷ libraries pid (split maps b'\n')

module _ (proc : Proc) where
  unfoldable pub austin_target_files : String → Result (List TargetFile)
  unfolding join_paths candidates select_files
  austin_target_files pid = elim (proc.read_link (join_paths (proc_dir ∷ pid ∷ "exe" ∷ []))) [
    | panic ↦ panic
    | err e ↦ err (wrap ("could not resolve the interpreter of PID " <> pid) e)
    | ok exe ↦ elim (proc.read_text (join_paths (proc_dir ∷ pid ∷ "maps" ∷ []))) [
      | panic ↦ panic
      | err e ↦ err (wrap ("could not read the memory map of PID " <> pid) e)
      | ok maps ↦ ok (select_files proc.readable [] (candidates pid exe maps))
    ]
  ]
