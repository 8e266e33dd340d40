-- ===== src/Profilers/Austin/Message.antt =====
-- `austinErrorMessage`, over ASCII.
use Prim.Native.Char.{Char, code}
use application_profiler.Base.{
  ℕ, zero, suc, Bool, ◌||◌, ◌&&◌, Option, none, some, String, ◌<>◌, ◌==◌, if◌then◌else◌, eqb, leb,
  ltb,
}
use application_profiler.Base.Text.{has_prefix, join, size_of}
use application_profiler.Base.Text.Searching.{fields, is_digit, strip_digit, strip_prefix}

abbrev is_letter : Char → Bool
is_letter c = (leb b'A' (code c) && leb (code c) b'Z') || (leb b'a' (code c) && leb (code c) b'z')

-- How long a match of `[0-9;]*[A-Za-z]` is here.
unfoldable pub parameters_length : String → Option ℕ
parameters_length String.[] = none
parameters_length (String.◌∷◌ c s) =
    let rest = parameters_length s in
    if is_letter c
    then some 1
    else if is_digit c || eqb (code c) b';'
    then elim rest [ none ↦ none | some n ↦ some (suc n) ]
    else none

-- How many characters behind an escape character belong to a match of `ansiEscape`.
unfoldable pub escape_length : String → Option ℕ
unfolding parameters_length
escape_length String.[] = none
escape_length (String.◌∷◌ c s) =
    if eqb (code c) b'['
    then elim (parameters_length s) [ none ↦ none | some n ↦ some (suc n) ]
    else none

-- The text without its escape sequences; the rest of one that has begun is skipped.
unfoldable pub drop_escapes : ℕ → String → String
unfolding escape_length
drop_escapes n String.[] = String.[]
drop_escapes (suc n) (String.◌∷◌ c s) = drop_escapes n s
drop_escapes zero (String.◌∷◌ c s) =
    let kept = String.◌∷◌ c (drop_escapes zero s) in
    if eqb (code c) 27
    then elim (escape_length s) [ none ↦ kept | some n ↦ drop_escapes n s ]
    else kept

abbrev and_then : Option String → (String → Option String) → Option String
and_then none f = none
and_then (some s) f = f s

unfoldable pub drop_digits : String → String
drop_digits String.[] = String.[]
drop_digits (String.◌∷◌ c s) =
    let rest = drop_digits s in if is_digit c then rest else String.◌∷◌ c s

-- What stands behind a number.
abbrev number : String → Option String
number s = and_then (strip_digit s) (λ t. some (drop_digits t))

unfoldable pub behind_bracket : String → Option String
behind_bracket String.[] = none
behind_bracket (String.◌∷◌ c s) =
    let rest = behind_bracket s in if eqb (code c) b']' then some s else rest

-- What stands behind a match of `\d+\.\d+\.\d+ \[[^\]]*\]` here.
unfoldable pub banner_here : String → Option String
unfolding strip_prefix drop_digits behind_bracket
banner_here s = and_then (number s) (λ a. and_then (strip_prefix "." a) (λ b.
    and_then (number b) (λ c.
      and_then (strip_prefix "." c)
        (λ d. and_then (number d) (λ e. and_then (strip_prefix " [" e) behind_bracket)))))

-- The text behind the banner, or the whole text if there is none.
unfoldable pub behind_banner : String → Option String
unfolding banner_here
behind_banner String.[] = none
behind_banner (String.◌∷◌ c s) = elim (banner_here (String.◌∷◌ c s)) [
  | some rest ↦ some rest
  | none ↦ behind_banner s
]

-- The text before the first place where the part stands.
unfoldable pub cut_before : String → String → String
unfolding has_prefix
cut_before part String.[] = String.[]
cut_before part (String.◌∷◌ c s) =
    let rest = cut_before part s in
    if has_prefix part (String.◌∷◌ c s) then String.[] else String.◌∷◌ c rest

unfoldable pub trim_to_word : String → String
trim_to_word String.[] = String.[]
trim_to_word (String.◌∷◌ c s) =
    let rest = trim_to_word s in if is_letter c || is_digit c then String.◌∷◌ c s else rest

unfoldable pub take_text : ℕ → String → String
take_text zero s = String.[]
take_text (suc n) String.[] = String.[]
take_text (suc n) (String.◌∷◌ c s) = String.◌∷◌ c (take_text n s)

abbrev pub max_len : ℕ
max_len = 300

unfoldable pub austin_error_message : String → String
unfolding drop_escapes behind_banner cut_before fields join trim_to_word take_text
austin_error_message stderr =
    let plain = drop_escapes 0 stderr in
    let body = elim (behind_banner plain) as (λ _. String) [ none ↦ plain | some rest ↦ rest ] in
    let s = trim_to_word (join (fields (cut_before "If you are sure" body)) " ") in
    if s == ""
    then "no error output"
    else if ltb max_len (size_of s)
    then take_text max_len s <> "…"
    else s
