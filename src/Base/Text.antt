-- ===== src/Base/Text.antt =====
-- What the program uses of Go's `strings` and `strconv`, over texts as lists of characters.
pub mod Splitting
pub mod Searching
use Prim.Native.Char.{Char, code}
use Prim.Native.String.{String, ◌++◌ as ◌<>◌}
use mathlib.Core.Bool.{Bool, true, false, not, ◌||◌, ◌&&◌}
use Prim.Native.Nat.{ℕ, suc}
use mathlib.Core.List.{List, [], ◌∷◌}
use application_profiler.Base.Tests.{eqb, leb, if◌then◌else◌}

-- `unicode.IsSpace`
abbrev pub is_space : Char → Bool
is_space c =
    (leb 9 (code c) && leb (code c) 13) || eqb (code c) 32 || eqb (code c) 133 || eqb (code c) 160

abbrev pub all_space : String → Bool
all_space String.[] = true
all_space (String.◌∷◌ c s) = is_space c && all_space s

-- `strings.HasPrefix`, with the prefix first
unfoldable pub has_prefix : String → String → Bool
has_prefix String.[] s = true
has_prefix (String.◌∷◌ p ps) String.[] = false
has_prefix (String.◌∷◌ p ps) (String.◌∷◌ c s) = eqb (code p) (code c) && has_prefix ps s

-- `strings.Join`
unfoldable pub join : List String → String → String
join [] sep = ""
join (x ∷ []) sep = x
join (x ∷ y ∷ ys) sep = x <> (sep <> join (y ∷ ys) sep)

-- The verb `%s` at a slice of texts.
unfoldable pub show_list : List String → String
unfolding join
show_list xs = "[" <> join xs " " <> "]"

-- No character of the text has that code.
abbrev pub lacks : ℕ → String → Bool
lacks k String.[] = true
lacks k (String.◌∷◌ c s) = not (eqb (code c) k) && lacks k s

-- Puts a character in front of the first part of a split.
abbrev pub extend : Char → List String → List String
extend c [] = String.◌∷◌ c String.[] ∷ []
extend c (p ∷ ps) = String.◌∷◌ c p ∷ ps

-- `strings.Split` at a separator of one character, given by its code
unfoldable pub split : String → ℕ → List String
split String.[] sep = String.[] ∷ []
split (String.◌∷◌ c s) sep =
    let rest = split s sep in if eqb (code c) sep then String.[] ∷ rest else extend c rest

abbrev pub is_empty : String → Bool
is_empty String.[] = true
is_empty (String.◌∷◌ c s) = false

unfoldable pub trim_left : String → String
trim_left String.[] = String.[]
trim_left (String.◌∷◌ c s) = let rest = trim_left s in if is_space c then rest else String.◌∷◌ c s

unfoldable pub trim_right : String → String
trim_right String.[] = String.[]
trim_right (String.◌∷◌ c s) =
    let rest = trim_right s in if is_space c && is_empty rest then String.[] else String.◌∷◌ c rest

-- `strings.TrimSpace`
unfoldable pub trim_space : String → String
unfolding trim_left trim_right
trim_space s = trim_right (trim_left s)

-- The number of characters.
abbrev pub size_of : String → ℕ
size_of String.[] = 0
size_of (String.◌∷◌ c s) = suc (size_of s)

-- The character at the place where the first text has `c`, or `c`.
abbrev translate : String → String → Char → Char
translate String.[] to c = c
translate (String.◌∷◌ a from) String.[] c = c
translate (String.◌∷◌ a from) (String.◌∷◌ b to) c =
    if eqb (code a) (code c) then b else translate from to c

-- `strings.ToTitle`, over ASCII
unfoldable pub to_title : String → String
to_title String.[] = String.[]
to_title (String.◌∷◌ c s) =
    String.◌∷◌ (translate "abcdefghijklmnopqrstuvwxyz" "ABCDEFGHIJKLMNOPQRSTUVWXYZ" c) (to_title s)
