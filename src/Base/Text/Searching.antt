-- ===== src/Base/Text/Searching.antt =====
-- What the program uses of Go's `strings`, `strconv` and `regexp` to look into texts.
use Prim.Native.Char.{Char, code}
use Prim.Native.String.{String}
use Prim.Native.Nat.{ℕ, zero, suc, ◌-◌, ◌*◌, ◌+◌}
use mathlib.Core.Bool.{Bool, true, false, not, ◌||◌, ◌&&◌}
use mathlib.Core.Option.{Option, none, some}
use mathlib.Core.List.{List, [], ◌∷◌}
use application_profiler.Base.Tests.{eqb, leb, if◌then◌else◌}
use application_profiler.Base.Int.{ℤ, pos, sub_ℕ}
use application_profiler.Base.Text.{has_prefix, is_space, is_empty, extend}

-- `strings.Contains`
unfoldable pub contains_part : String → String → Bool
unfolding has_prefix
contains_part String.[] part = has_prefix part String.[]
contains_part (String.◌∷◌ c s) part =
    let rest = contains_part s part in has_prefix part (String.◌∷◌ c s) || rest

-- The pieces between white space, empty ones too.
unfoldable pub pieces : String → List String
pieces String.[] = String.[] ∷ []
pieces (String.◌∷◌ c s) =
    let rest = pieces s in if is_space c then String.[] ∷ rest else extend c rest

unfoldable pub drop_empty : List String → List String
drop_empty [] = []
drop_empty (p ∷ ps) = let rest = drop_empty ps in if is_empty p then rest else p ∷ rest

-- `strings.Fields`
unfoldable pub fields : String → List String
unfolding pieces drop_empty
fields s = drop_empty (pieces s)

abbrev pub is_digit : Char → Bool
is_digit c = leb b'0' (code c) && leb (code c) b'9'

abbrev pub all_digits : String → Bool
all_digits String.[] = true
all_digits (String.◌∷◌ c s) = is_digit c && all_digits s

-- The number that digits spell behind `acc`.
unfoldable pub decimal : ℕ → String → ℕ
decimal acc String.[] = acc
decimal acc (String.◌∷◌ c s) = decimal (acc * 10 + (code c - b'0')) s

-- The largest `int`, and what `Atoi` gives for a number that is out of range.
abbrev pub max_int : ℕ
max_int = 9_223_372_036_854_775_807

unfoldable pub digits_or : String → (ℕ → ℤ × Bool) → ℤ × Bool
unfolding decimal
digits_or s f = if not (is_empty s) && all_digits s then f (decimal 0 s) else (pos 0, false)

-- `strconv.Atoi`: a number, and whether it was read without an error.
unfoldable pub atoi : String → ℤ × Bool
unfolding digits_or
atoi String.[] = (pos 0, false)
atoi (String.◌∷◌ c s) =
    if eqb (code c) b'-'
    then digits_or s
        (λ n. if leb n (max_int + 1) then (sub_ℕ 0 n, true) else (sub_ℕ 0 (max_int + 1), false))
    else if eqb (code c) b'+'
    then digits_or s (λ n. if leb n max_int then (pos n, true) else (pos max_int, false))
    else digits_or (String.◌∷◌ c s)
        (λ n. if leb n max_int then (pos n, true) else (pos max_int, false))

-- What stands before and behind the last character of that code.
unfoldable pub split_last : ℕ → String → Option (String × String)
split_last k String.[] = none
split_last k (String.◌∷◌ c s) = elim (split_last k s) [
  | some (before, behind) ↦ some (String.◌∷◌ c before, behind)
  | none ↦ if eqb (code c) k then some (String.[], s) else none
]

unfoldable pub strip_prefix : String → String → Option String
strip_prefix String.[] s = some s
strip_prefix (String.◌∷◌ p ps) String.[] = none
strip_prefix (String.◌∷◌ p ps) (String.◌∷◌ c s) =
    let rest = strip_prefix ps s in if eqb (code p) (code c) then rest else none

abbrev pub strip_digit : String → Option String
strip_digit String.[] = none
strip_digit (String.◌∷◌ c s) = if is_digit c then some s else none

-- The first `n` characters, if they are digits.
unfoldable pub leading_digits : ℕ → String → Option String
leading_digits zero s = some String.[]
leading_digits (suc n) String.[] = none
leading_digits (suc n) (String.◌∷◌ c s) = elim (leading_digits n s) [
  | none ↦ none
  | some ds ↦ if is_digit c then some (String.◌∷◌ c ds) else none
]
