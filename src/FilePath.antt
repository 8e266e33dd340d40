-- ===== src/FilePath.antt =====
-- What the agent uses of Go's `path/filepath` on a Unix system.
use application_profiler.Base.{
  Bool, ◌||◌, List, [], ◌∷◌, String, ◌<>◌, ◌==◌, if◌then◌else◌, reverse,
}
use application_profiler.Base.Text.{split, join, has_prefix}

-- One element of a path, over the elements so far, the last one first.
clean_step : Bool → List String → String → List String
clean_step rooted [] part =
    if part == "" || part == "."
    then []
    else if part == ".."
    then if rooted then [] else part ∷ []
    else part ∷ []
clean_step rooted (top ∷ stack) part =
    if part == "" || part == "."
    then top ∷ stack
    else if part == ".."
    then if top == ".." then part ∷ top ∷ stack else stack
    else part ∷ top ∷ stack

clean_from : Bool → List String → List String → List String
clean_from rooted stack [] = stack
clean_from rooted stack (part ∷ parts) = clean_from rooted (clean_step rooted stack part) parts

-- `filepath.Clean`
unfoldable pub clean : String → String
unfolding clean_from clean_step split join has_prefix
clean path =
    let rooted = has_prefix "/" path in
    let body = join (reverse (clean_from rooted [] (split path b'/'))) "/" in
    if rooted then "/" <> body else if body == "" then "." else body

-- `filepath.Join`: leading empty elements are dropped.
unfoldable pub join_paths : List String → String
unfolding clean join
join_paths [] = ""
join_paths (e ∷ es) =
    let rest = join_paths es in if e == "" then rest else clean (join (e ∷ es) "/")
