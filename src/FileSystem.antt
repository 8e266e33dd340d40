-- ===== src/FileSystem.antt =====
-- pkg/util/file/file.go, over the files as a map from names to contents. A content is a text whose
-- characters are the bytes; every file is a regular one.
pub mod Lookup
pub mod Removal
use application_profiler.Base.{
  ℕ, Bool, true, false, panic, ◌<>◌, Option, none, some, Result, ok, err, errorf, Error, List, [],
  ◌∷◌, String, ◌==◌, if◌then◌else◌, lookup, first, eqb,
}
use application_profiler.Base.Text.{size_of}
use application_profiler.FilePath.{join_paths}
use application_profiler.Glob.{glob_match, sort}
use application_profiler.World.{Files}
use application_profiler.Os.{Os}

-- The content after a file was written.
unfoldable pub put : String → String → Files → Files
put f c [] = (f, c) ∷ []
put f c ((g, d) ∷ fs) = let rest = put f c fs in if f == g then (f, c) ∷ fs else (g, d) ∷ rest

unfoldable pub delete : String → Files → Files
delete f [] = []
delete f ((g, d) ∷ fs) = let rest = delete f fs in if f == g then rest else (g, d) ∷ rest

abbrev pub exists : String → Files → Bool
exists f fs = elim (lookup f fs) [ none ↦ false | some c ↦ true ]

-- The bytes of a file that is open for reading.
abbrev pub content : String → Files → String
content f fs = elim (lookup f fs) [ none ↦ "" | some c ↦ c ]

unfoldable pub matching : String → Files → List String
matching pattern [] = []
matching pattern ((f, c) ∷ fs) =
    let rest = matching pattern fs in if glob_match pattern f then f ∷ rest else rest

-- `List`
unfoldable pub list : String → Files → List String
unfolding matching
list pattern fs = sort (matching pattern fs)

-- `First`
unfoldable pub first_match : String → Files → String
unfolding list
first_match pattern fs = elim (list pattern fs) [ [] ↦ "" | f ∷ rest ↦ f ]

-- `Size`: nothing for a file that is not there.
unfoldable pub size : String → Files → ℕ
size f fs = elim (lookup f fs) [ none ↦ 0 | some c ↦ size_of c ]

abbrev pub is_empty_file : String → Files → Bool
is_empty_file f fs = eqb (size f fs) 0

unfoldable pub not_exist : String → Error
not_exist f = errorf ("open " <> (f <> ": no such file or directory"))

module _ (os : Os) where
  -- `os.ReadFile`
  unfoldable pub read_file : String → Files → Result String
  read_file f fs = elim (lookup f fs) [
    | none ↦ err (not_exist f)
    | some c ↦ elim (os.open_error f fs) [ none ↦ ok c | some e ↦ err e ]
  ]

  -- `Remove`
  unfoldable pub remove : String → Files → Option Error × Files
  unfolding delete
  remove f fs =
      if exists f fs
      then elim (os.remove_error f fs) [ none ↦ (none, delete f fs) | some e ↦ (some e, fs) ]
      else (none, fs)

  unfoldable pub remove_each : List String → Files → Files
  unfolding remove
  remove_each [] fs = fs
  remove_each (f ∷ more) fs = remove_each more (remove f fs).1

  -- `RemoveAll`: errors are only logged.
  unfoldable pub remove_all : String → String → Files → Files
  unfolding list remove_each
  remove_all dir pattern fs =
      remove_each (list (join_paths (dir ∷ ("*" <> (pattern <> "*")) ∷ [])) fs) fs

  -- `Write`: an error is only logged.
  unfoldable pub write : String → String → Files → Files
  unfolding put
  write f c fs = elim (os.create_error f fs) [ none ↦ put f c fs | some e ↦ fs ]

  -- `Read`
  unfoldable pub read : String → Files → String
  unfolding read_file
  read f fs = elim (read_file f fs) [ ok c ↦ c | err e ↦ "" | panic ↦ "" ]

  -- `Append`: errors are only logged.
  unfoldable pub append : String → String → Files → Files
  unfolding put
  append f c fs = elim (os.create_error f fs) [
    | none ↦ elim (lookup f fs) [ none ↦ put f c fs | some old ↦ put f (old <> c) fs ]
    | some e ↦ fs
  ]

  -- `Checksum`
  unfoldable pub checksum : String → Files → String
  unfolding read_file
  checksum f fs = elim (read_file f fs) [ ok c ↦ os.md5 c | err e ↦ "" | panic ↦ "" ]

  -- `MergeFiles`
  unfoldable pub merge_files : String → List String → Files → Files
  unfolding append read
  merge_files output [] fs = fs
  merge_files output (f ∷ inputs) fs = merge_files output inputs (append output (read f fs) fs)

  -- `Copy`: creating the destination empties it, before the source is read.
  unfoldable pub copy : String → String → Files → Result ℕ × Files
  unfolding read_file put size
  copy src dst fs = elim (read_file src fs) [
    | err e ↦ (err e, fs)
    | panic ↦ (panic, fs)
    | ok c ↦ elim (os.create_error dst fs) [
      | some e ↦ (err e, fs)
      | none ↦
          let emptied = put dst "" fs in
          (ok (size_of (content src emptied)), put dst (content src emptied) emptied)
    ]
  ]

  -- `Move`
  unfoldable pub move : String → String → Files → Option Error × Files
  unfolding put delete
  move src dst fs = elim (lookup src fs) [
    | none ↦ (some (not_exist src), fs)
    | some c ↦ elim (os.rename_error src dst fs) [
      | some e ↦ (some e, fs)
      | none ↦ if src == dst then (none, fs) else (none, put dst c (delete src fs))
    ]
  ]
