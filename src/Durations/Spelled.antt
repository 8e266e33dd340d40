-- ===== src/Durations/Spelled.antt =====
-- Durations that are whole numbers of a unit.
use Prim.Native.Char.{Char, code}
use native.Mathlib.Nat.{le-div_iff_mul-le, mul-le-mul_left}
use text.Mathlib.TextLemmas.{nil-append, cons-append}
use application_profiler.Base.{
  ℕ, zero, suc, ◌+◌, ◌-◌, ◌*◌, ◌/◌, ◌%◌, ◌≤◌, ◌<◌, ◌≡◌, ◌≢◌, refl, sym, ap, ◌∙◌, Bool, true, false,
  not, ◌&&◌, ok, some, inl, inr, List, [], ◌∷◌, String, ◌<>◌, ◌==◌, Bool-cases, eq_iff, lookup, ltb,
  leb, eqb, all, arith, ltb→lt,
}
use application_profiler.Base.Int.{pos}
use application_profiler.Base.Digits.{digit, digits, itoa, code-digit}
use application_profiler.Base.Text.{size_of, is_empty, is_space, all_space}
use application_profiler.Base.Text.Searching.{is_digit}
use application_profiler.Durations.{
  limit, wrapping, unit_map, leading_int, fraction_of, is_number, take_unit, in_unit, next_term,
  sum_terms, signed, unsigned, take_sign, parse, parse_duration, outcome,
}

-- No character of the text belongs to a number.
abbrev unit_text : String → Bool
unit_text String.[] = true
unit_text (String.◌∷◌ c s) = not (is_number c) && unit_text s

abbrev is_unit : String × ℕ → Bool
is_unit p = unit_text p.0 && not (is_empty p.0) && leb 1 p.1

lookup-is_unit :
    (table : List (String × ℕ)) (u : String) (k : ℕ)
    → all is_unit table ≡ true
    → lookup u table ≡ some k
    → is_unit (u, k) ≡ true
lookup-is_unit [] u k h found = cc
lookup-is_unit ((v, j) ∷ table) u k h found =
    let rest = lookup-is_unit table u k in
    elim (Bool-cases (u == v)) [ inl e ↦ ground (arith, eq_iff u v) | inr e ↦ ground (arith, rest) ]

take_unit-unit_text : (u : String) → unit_text u ≡ true → take_unit u ≡ (u, "")
unfolding take_unit
take_unit-unit_text String.[] h = refl
take_unit-unit_text (String.◌∷◌ c s) h = ground (arith, take_unit-unit_text s)

fraction_of-unit_text :
    (u : String)
    → unit_text u ≡ true
    → fraction_of u ≡ record { digits = 0; scale = 1; rest = u; found = false }
unfolding fraction_of
fraction_of-unit_text String.[] h = refl
fraction_of-unit_text (String.◌∷◌ c s) h = ground arith

leading_int-unit_text : (n : ℕ) (u : String) → unit_text u ≡ true → leading_int n u ≡ some (n, u)
unfolding leading_int
leading_int-unit_text n String.[] h = refl
leading_int-unit_text n (String.◌∷◌ c s) h = ground arith

digits-append : (fuel n : ℕ) (out u : String) → digits fuel n out <> u ≡ digits fuel n (out <> u)
unfolding digits
digits-append zero n out u = cons-append (digit (n % 10)) out u
digits-append (suc fuel) n out u = elim (Bool-cases (ltb n 10)) [
  | inl e ↦ rw e (cons-append (digit n) out u)
  | inr e ↦ rw e (
      digits-append fuel (n / 10) (String.◌∷◌ (digit (n % 10)) out) u
      ∙ ap (digits fuel (n / 10)) (cons-append (digit (n % 10)) out u))
]

is_digit-digit : (d : ℕ) → d < 10 → is_digit (digit d) ≡ true
is_digit-digit d h = rw (code-digit d h) (ground arith)

leading_int-digit :
    (x d : ℕ) (s : String)
    → d < 10
    → x * 10 + d ≤ limit
    → leading_int x (String.◌∷◌ (digit d) s) ≡ leading_int (x * 10 + d) s
unfolding leading_int
leading_int-digit x d s h fits =
    let same : x * 10 + (code (digit d) - b'0') ≡ x * 10 + d = rw (code-digit d h) (omega arith) in
    let small : ltb (limit / 10) x ≡ false = ground arith in
    let in_range : ltb limit (x * 10 + (code (digit d) - b'0')) ≡ false = rw same (ground arith) in
    rw (is_digit-digit d h, small, in_range) (ap (λ (k : ℕ). leading_int k s) same)

leading_int-digits :
    (fuel n : ℕ) (out : String)
    → n ≤ fuel
    → n ≤ limit
    → leading_int 0 (digits fuel n out) ≡ leading_int n out
unfolding digits
leading_int-digits zero n out h fits =
    leading_int-digit 0 (n % 10) out (omega arith) (omega arith)
    ∙ ap (λ (k : ℕ). leading_int k out) (omega arith)
leading_int-digits (suc fuel) n out h fits = elim (Bool-cases (ltb n 10)) [
  | inl small ↦ rw small (
      leading_int-digit 0 n out (omega (arith, ltb→lt n 10 small)) (omega arith)
      ∙ ap (λ (k : ℕ). leading_int k out) (omega arith))
  | inr large ↦ rw large (
      leading_int-digits fuel (n / 10) _ (ground arith) (omega arith)
      ∙ leading_int-digit (n / 10) (n % 10) out (omega arith) (omega arith)
      ∙ ap (λ (k : ℕ). leading_int k out) (omega arith))
]

-- The text starts with a digit, and is longer than its unit.
Starts : String → String → Type 0
Starts out s =
    (c : Char) × (t : String) × (s ≡ String.◌∷◌ c t)
    × (is_digit c ≡ true)
    × (size_of out ≤ size_of t)

digits-Starts : (fuel n : ℕ) (out : String) → Starts out (digits fuel n out)
unfolding digits Starts
digits-Starts zero n out =
    (digit (n % 10), out, refl, is_digit-digit (n % 10) (omega arith), omega arith)
digits-Starts (suc fuel) n out = elim (Bool-cases (ltb n 10)) [
  | inl e ↦ (digit n, out, rw e refl, is_digit-digit n (ltb→lt n 10 e), omega arith)
  | inr e ↦
      let (c, t, same, first, longer) =
        digits-Starts fuel (n / 10) (String.◌∷◌ (digit (n % 10)) out) in
      (c, t, rw e same, first, omega arith)
]

wrapping-small :
    (v : ℕ) → v < limit → (wrapping (0 + v) ≡ v) × (ltb limit (wrapping (0 + v)) ≡ false)
wrapping-small v h = let same : wrapping (0 + v) ≡ v = omega arith in (same, rw same (ground arith))

-- A spelled duration is not blank.
pub all_space-itoa : (n : ℕ) (u : String) → all_space (itoa n <> u) ≡ false
unfolding itoa Starts
all_space-itoa n u =
    let (c, s, same, first, longer) = digits-Starts n n u in
    let spelled = digits-append n n "" u ∙ ap (digits n n) (nil-append u) ∙ same in
    let visible : is_space c ≡ false = ground arith in ap all_space spelled ∙ rw visible refl

module _ (quote : String → String) (scaled : ℕ → ℕ → ℕ → ℕ) where
  in_unit-whole :
      (orig u : String) (n k : ℕ)
      → n * k ≤ limit
      → 1 ≤ k
      → in_unit quote scaled orig n (record { digits = 0; scale = 1; rest = u; found = false }) k
        ≡ ok (n * k)
  unfolding in_unit
  in_unit-whole orig u n k h large =
      let room : n ≤ limit / k =
        (le-div_iff_mul-le {k = k} {x = n} {y = limit} (omega arith)).1 h in
      let small : ltb (limit / k) n ≡ false = ground arith in rw small refl

  next_term-whole :
      (orig u s : String) (c : Char) (n k : ℕ)
      → is_digit c ≡ true
      → leading_int 0 (String.◌∷◌ c s) ≡ some (n, u)
      → size_of u ≤ size_of s
      → unit_text u ≡ true
      → is_empty u ≡ false
      → lookup u unit_map ≡ some k
      → n * k ≤ limit
      → 1 ≤ k
      → next_term quote scaled orig (String.◌∷◌ c s) ≡ ok (n * k, "")
  unfolding next_term
  next_term-whole orig u s c n k d read shorter text some_text found fits large =
      let longer : eqb (suc (size_of s)) (size_of u) ≡ false = ground arith in
      let whole = in_unit-whole orig u n k fits large in
      rw
        (
          read,
          d,
          fraction_of-unit_text u text,
          longer,
          take_unit-unit_text u text,
          some_text,
          found,
          whole,
        )
        refl

  sum_terms-whole :
      (orig s : String) (c : Char) (v : ℕ)
      → next_term quote scaled orig (String.◌∷◌ c s) ≡ ok (v, "")
      → v < limit
      → sum_terms quote scaled orig (suc (size_of s)) 0 (String.◌∷◌ c s) ≡ ok v
  unfolding sum_terms
  sum_terms-whole orig s c v h fits =
      let (same, small) = wrapping-small v fits in rw (h, small, same) refl

  take_sign-digit :
      (c : Char) (s : String)
      → is_digit c ≡ true
      → take_sign (String.◌∷◌ c s) ≡ (false, String.◌∷◌ c s)
  unfolding take_sign
  take_sign-digit c s h =
      let plus : eqb (code c) b'+' ≡ false = ground arith in
      let minus : eqb (code c) b'-' ≡ false = ground arith in rw (minus, plus) refl

  zero-absurd :
      (c : Char) (s u : String) (n : ℕ)
      → leading_int 0 (String.◌∷◌ c s) ≡ some (n, u)
      → is_empty u ≡ false
      → String.◌∷◌ c s ≢ "0"
  unfolding leading_int
  zero-absurd c s u n read some_text e = let there = ap (leading_int 0) (sym e) ∙ read in cc

  parse-whole :
      (s u : String) (c : Char) (n v : ℕ)
      → is_digit c ≡ true
      → leading_int 0 (String.◌∷◌ c s) ≡ some (n, u)
      → is_empty u ≡ false
      → next_term quote scaled (String.◌∷◌ c s) (String.◌∷◌ c s) ≡ ok (v, "")
      → v < limit
      → parse quote scaled (String.◌∷◌ c s) ≡ ok (pos v)
  unfolding parse unsigned signed leading_int
  parse-whole s u c n v d read some_text term fits =
      let summed = sum_terms-whole (String.◌∷◌ c s) s c v term fits in
      let small : ltb (limit - 1) v ≡ false = ground arith in
      elim (Bool-cases (String.◌∷◌ c s == "0")) [
        | inl e ↦ absurd (zero-absurd c s u n read some_text ((eq_iff (String.◌∷◌ c s) "0").0 e))
        | inr e ↦ rw (take_sign-digit c s d, e, summed, small) refl
      ]

  -- A number below 2 ^ 63 of a unit of `unitMap` is read as that many units.
  pub parse_duration-itoa :
      (n k : ℕ) (u : String)
      → lookup u unit_map ≡ some k
      → n * k < limit
      → parse_duration quote scaled (itoa n <> u) ≡ inr (pos (n * k))
  unfolding parse_duration Starts itoa digits
  parse_duration-itoa n k u found fits =
      let unit = lookup-is_unit unit_map u k refl found in
      let text : unit_text u ≡ true = ground arith in
      let some_text : is_empty u ≡ false = ground arith in
      let large : 1 ≤ k = ground arith in
      let more = mul-le-mul_left n large in
      let (c, s, same, first, longer) = digits-Starts n n u in
      let spelled = digits-append n n "" u ∙ ap (digits n n) (nil-append u) ∙ same in
      let read =
        ap (leading_int 0) (sym same)
        ∙ leading_int-digits n n u (omega arith) (omega arith)
        ∙ leading_int-unit_text n u text in
      let term =
        next_term-whole (String.◌∷◌ c s) u s c n k first read longer text some_text found
          (omega arith) large in
      ap (parse_duration quote scaled) spelled
      ∙ ap (outcome quote scaled (String.◌∷◌ c s))
          (parse-whole s u c n (n * k) first read some_text term fits)
