-- ===== src/Durations.antt =====
-- `time.ParseDuration`, which internal/agent/action/profile/profile.go and cmd/agent/main.go call.
-- How a text is quoted, and a fraction of a unit, which Go computes with `float64`, are parameters.
pub mod Spelled
pub mod Total
use application_profiler.Base.{
  ℕ, zero, suc, ◌+◌, ◌-◌, ◌*◌, ◌/◌, ◌%◌, Bool, true, false, not, ◌||◌, Result, ok, err, panic,
  Error, errorf, Option, none, some, List, [], ◌∷◌, String, ◌<>◌, ◌==◌, if◌then◌else◌, eqb, ltb,
  lookup, guard, ◌>>=◌, ◌>>◌, ◌⊎◌, inl, inr,
}
use application_profiler.Base.Int.{ℤ, pos, sub_ℕ}
use application_profiler.Base.Text.{size_of, is_empty}
use application_profiler.Base.Text.Searching.{is_digit}
use Prim.Native.Char.{Char, code}

-- `1 << 63`
abbrev pub limit : ℕ
limit = 9_223_372_036_854_775_808

abbrev pub wrapping : ℕ → ℕ
wrapping n = n % 18_446_744_073_709_551_616

-- `unitMap`, in nanoseconds
abbrev pub unit_map : List (String × ℕ)
unit_map =
    ("ns", 1)
    ∷ ("us", 1_000)
    ∷ ("µs", 1_000)
    ∷ ("μs", 1_000)
    ∷ ("ms", 1_000_000)
    ∷ ("s", 1_000_000_000)
    ∷ ("m", 60_000_000_000)
    ∷ ("h", 3_600_000_000_000)
    ∷ []

-- `leadingInt`, after digits that spell `x`: none if the number is above 2 ^ 63.
unfoldable pub leading_int : ℕ → String → Option (ℕ × String)
leading_int x String.[] = some (x, "")
leading_int x (String.◌∷◌ c s) =
    let y = x * 10 + (code c - b'0') in
    let rest = leading_int y s in
    if is_digit c
    then if ltb (limit / 10) x || ltb limit y then none else rest
    else some (x, String.◌∷◌ c s)

-- The digits of a fraction with their scale, the rest of the text, and whether there were digits.
pub record Fraction : Type 0 where
  pub digits : ℕ
  pub scale : ℕ
  pub rest : String
  pub found : Bool

-- `leadingFraction`, which leaves out the digits for which there is no room.
unfoldable pub leading_fraction : ℕ → ℕ → Bool → Bool → String → Fraction
leading_fraction x scale full found String.[] = record {
  digits = x;
  scale = scale;
  rest = "";
  found = found;
}
leading_fraction x scale full found (String.◌∷◌ c s) =
    let y = x * 10 + (code c - b'0') in
    let full' = full || ltb ((limit - 1) / 10) x || ltb limit y in
    let more =
      leading_fraction (if full' then x else y) (if full' then scale else scale * 10) full' true
        s in
    if is_digit c
    then more
    else record { digits = x; scale = scale; rest = String.◌∷◌ c s; found = found }

-- What follows the integer part.
unfoldable pub fraction_of : String → Fraction
unfolding leading_fraction
fraction_of String.[] = record { digits = 0; scale = 1; rest = ""; found = false }
fraction_of (String.◌∷◌ c s) =
    if eqb (code c) b'.'
    then leading_fraction 0 1 false false s
    else record { digits = 0; scale = 1; rest = String.◌∷◌ c s; found = false }

-- A character of a number.
abbrev pub is_number : Char → Bool
is_number c = is_digit c || eqb (code c) b'.'

-- The unit in front of a text.
unfoldable pub take_unit : String → String × String
take_unit String.[] = ("", "")
take_unit (String.◌∷◌ c s) =
    let r = take_unit s in if is_number c then ("", String.◌∷◌ c s) else (String.◌∷◌ c r.0, r.1)

abbrev pub starts_number : String → Bool
starts_number String.[] = false
starts_number (String.◌∷◌ c s) = is_number c

module _ (quote : String → String) (scaled : ℕ → ℕ → ℕ → ℕ) (orig : String) where
  abbrev pub invalid : Error
  invalid = errorf ("time: invalid duration " <> quote orig)

  abbrev pub found_unit : String → Option ℕ → Result ℕ
  found_unit u none =
      err (errorf ("time: unknown unit " <> (quote u <> (" in duration " <> quote orig))))
  found_unit u (some k) = ok k

  abbrev pub read_int : Option (ℕ × String) → Result (ℕ × String)
  read_int none = err invalid
  read_int (some r) = ok r

  -- A number and its fraction, in a unit.
  unfoldable pub in_unit : ℕ → Fraction → ℕ → Result ℕ
  in_unit n f unit = do
    guard (not (ltb (limit / unit) n)) invalid
    let v = if ltb 0 f.digits then wrapping (n * unit + scaled f.digits unit f.scale) else n * unit
    guard (not (ltb 0 f.digits) || not (ltb limit v)) invalid
    ok v

  -- A number and its fraction, with the unit that follows.
  unfoldable pub with_unit : ℕ → Fraction → String × String → Result (ℕ × String)
  unfolding in_unit
  with_unit n f (u, rest) = do
    guard (not (is_empty u)) (errorf ("time: missing unit in duration " <> quote orig))
    unit ← found_unit u (lookup u unit_map)
    v ← in_unit n f unit
    ok (v, rest)

  -- The fraction and the unit after an integer, of which there may be no digits.
  unfoldable pub after_int : String → ℕ × String → Result (ℕ × String)
  unfolding fraction_of take_unit with_unit
  after_int s (n, t) =
      let f = fraction_of t in
      guard (not (eqb (size_of s) (size_of t)) || f.found) invalid
      >> with_unit n f (take_unit f.rest)

  -- One round of the loop: a number with its unit, and the rest of the text.
  unfoldable pub next_term : String → Result (ℕ × String)
  unfolding leading_int after_int
  next_term s = guard (starts_number s) invalid >> (read_int (leading_int 0 s) >>= after_int s)

  -- The loop, with fuel for the characters that are left.
  unfoldable pub sum_terms : ℕ → ℕ → String → Result ℕ
  unfolding next_term
  sum_terms fuel d String.[] = ok d
  sum_terms zero d (String.◌∷◌ c s) = panic
  sum_terms (suc fuel) d (String.◌∷◌ c s) = next_term (String.◌∷◌ c s) >>= λ t.
      guard (not (ltb limit (wrapping (d + t.0)))) invalid
      >> sum_terms fuel (wrapping (d + t.0)) t.1

  unfoldable pub signed : Bool → ℕ → Result ℤ
  signed true d = ok (sub_ℕ 0 d)
  signed false d = guard (not (ltb (limit - 1) d)) invalid >> ok (pos d)

  unfoldable pub unsigned : Bool → String → Result ℤ
  unfolding sum_terms signed
  unsigned negative s =
      if s == "0"
      then ok (pos 0)
      else if is_empty s
      then err invalid
      else sum_terms (size_of s) 0 s >>= signed negative

-- The sign, and the rest of the text.
unfoldable pub take_sign : String → Bool × String
take_sign String.[] = (false, "")
take_sign (String.◌∷◌ c s) =
    if eqb (code c) b'-'
    then (true, s)
    else if eqb (code c) b'+'
    then (false, s)
    else (false, String.◌∷◌ c s)

module _ (quote : String → String) (scaled : ℕ → ℕ → ℕ → ℕ) where
  unfoldable pub parse : String → Result ℤ
  unfolding take_sign unsigned
  parse s = let (negative, t) = take_sign s in unsigned quote scaled s negative t

  abbrev pub outcome : String → Result ℤ → Error ⊎ ℤ
  outcome s (ok d) = inr d
  outcome s (err e) = inl e
  outcome s panic = inl (invalid quote scaled s)

  -- `ParseDuration`
  unfoldable pub parse_duration : String → Error ⊎ ℤ
  unfolding parse
  parse_duration s = outcome s (parse s)
