-- ===== src/Glob.antt =====
-- What the agent uses of Go's `filepath.Glob`: patterns in which `*` stands for any characters but
-- a slash and `?` for one of them. Patterns with `[` or a backslash do not occur.
use Prim.Native.Char.{code}
use application_profiler.Base.{
  Bool, true, false, not, ◌&&◌, ◌||◌, List, [], ◌∷◌, String, if◌then◌else◌, eqb, ltb,
}
use application_profiler.Base.Text.{is_empty}

-- A text has some rest, beyond characters that are no slash, that the test accepts.
unfoldable pub star : (String → Bool) → String → Bool
star rest String.[] = rest String.[]
star rest (String.◌∷◌ c s) =
    let beyond = star rest s in rest (String.◌∷◌ c s) || (not (eqb (code c) b'/') && beyond)

unfoldable pub glob_match : String → String → Bool
unfolding star
glob_match String.[] s = is_empty s
glob_match (String.◌∷◌ p ps) String.[] =
    let rest = glob_match ps String.[] in eqb (code p) b'*' && rest
glob_match (String.◌∷◌ p ps) (String.◌∷◌ c s) =
    let rest = glob_match ps s in
    if eqb (code p) b'*'
    then star (λ t. glob_match ps t) (String.◌∷◌ c s)
    else (eqb (code p) (code c) || (eqb (code p) b'?' && not (eqb (code c) b'/'))) && rest

-- The order of texts by their characters, in which `Glob` lists a directory.
unfoldable pub text_le : String → String → Bool
text_le String.[] t = true
text_le (String.◌∷◌ c s) String.[] = false
text_le (String.◌∷◌ c s) (String.◌∷◌ d t) =
    let rest = text_le s t in ltb (code c) (code d) || (eqb (code c) (code d) && rest)

unfoldable pub insert : String → List String → List String
insert a [] = a ∷ []
insert a (x ∷ xs) = let rest = insert a xs in if text_le a x then a ∷ x ∷ xs else x ∷ rest

unfoldable pub sort : List String → List String
unfolding insert
sort [] = []
sort (x ∷ xs) = insert x (sort xs)
