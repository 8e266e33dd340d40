-- ===== src/Tests/JsonCodec.antt =====
-- A package for JSON whose texts are instructions for a stack of values.
use Prim.Native.Char.{Char, code}
use application_profiler.Base.{
  ℕ, zero, suc, ◌≡◌, refl, ap, ◌∙◌, Bool, true, false, ◌⊎◌, inl, inr, Error, errorf, List, [], ◌∷◌,
  String, if◌then◌else◌, eqb,
}
use application_profiler.Api.Json.{
  Json, Values, Fields, JsonText, IsLossless, null, text, number, array, object, no_values, value,
  no_fields, field,
}

-- What the stack holds.
data Item : Type 0 where
  one : Json → Item
  some_values : Values → Item
  some_fields : Fields → Item

-- The instructions for a value, in front of others.
print_text : String → String → String
print_text String.[] out = String.◌∷◌ "e" out
print_text (String.◌∷◌ c s) out = print_text s (String.◌∷◌ "c" (String.◌∷◌ c out))

print_number : ℕ → String → String
print_number zero out = String.◌∷◌ "0" out
print_number (suc n) out = print_number n (String.◌∷◌ "s" out)

mutual
  unfolding print_text print_number

  print_json : Json → String → String
  print_json null out = String.◌∷◌ "n" out
  print_json (text s) out = print_text s out
  print_json (number n) out = print_number n out
  print_json (array vs) out = print_values vs (String.◌∷◌ "a" out)
  print_json (object fs) out = print_fields fs (String.◌∷◌ "o" out)

  print_values : Values → String → String
  print_values no_values out = String.◌∷◌ "v" out
  print_values (value v vs) out = print_values vs (print_json v (String.◌∷◌ "V" out))

  print_fields : Fields → String → String
  print_fields no_fields out = String.◌∷◌ "f" out
  print_fields (field k v fs) out =
      print_fields fs (print_json v (print_text k (String.◌∷◌ "F" out)))

-- The stack after an instruction; it is emptied by one that does not fit.
abbrev push_char : Char → List Item → List Item
push_char c (one (text s) ∷ st) = one (text (String.◌∷◌ c s)) ∷ st
push_char c other = []

abbrev count : List Item → List Item
count (one (number n) ∷ st) = one (number (suc n)) ∷ st
count other = []

abbrev add_value : List Item → List Item
add_value (one v ∷ some_values vs ∷ st) = some_values (value v vs) ∷ st
add_value other = []

abbrev add_field : List Item → List Item
add_field (one (text k) ∷ one v ∷ some_fields fs ∷ st) = some_fields (field k v fs) ∷ st
add_field other = []

abbrev close_array : List Item → List Item
close_array (some_values vs ∷ st) = one (array vs) ∷ st
close_array other = []

abbrev close_object : List Item → List Item
close_object (some_fields fs ∷ st) = one (object fs) ∷ st
close_object other = []

abbrev step : Char → List Item → List Item
step c st =
    if eqb (code c) b'n'
    then one null ∷ st
    else if eqb (code c) b'e'
    then one (text "") ∷ st
    else if eqb (code c) b'0'
    then one (number 0) ∷ st
    else if eqb (code c) b's'
    then count st
    else if eqb (code c) b'v'
    then some_values no_values ∷ st
    else if eqb (code c) b'V'
    then add_value st
    else if eqb (code c) b'f'
    then some_fields no_fields ∷ st
    else if eqb (code c) b'F'
    then add_field st
    else if eqb (code c) b'a'
    then close_array st
    else if eqb (code c) b'o'
    then close_object st
    else []

-- Runs the instructions; behind a `c` stands a character of a text.
follow : Bool → String → List Item → List Item
follow taken String.[] st = st
follow true (String.◌∷◌ c s) st = follow false s (push_char c st)
follow false (String.◌∷◌ c s) st =
    follow (eqb (code c) b'c') s (if eqb (code c) b'c' then st else step c st)

follow-print_text :
    (s out : String) (st : List Item)
    → follow false (print_text s out) st ≡ follow false out (one (text s) ∷ st)
unfolding follow print_text
follow-print_text String.[] out st = refl
follow-print_text (String.◌∷◌ c s) out st =
    follow-print_text s (String.◌∷◌ "c" (String.◌∷◌ c out)) st

follow-print_number :
    (n : ℕ) (out : String) (st : List Item)
    → follow false (print_number n out) st ≡ follow false out (one (number n) ∷ st)
unfolding follow print_number
follow-print_number zero out st = refl
follow-print_number (suc n) out st = follow-print_number n (String.◌∷◌ "s" out) st

mutual
  unfolding follow print_json

  follow-print_json :
      (v : Json) (out : String) (st : List Item)
      → follow false (print_json v out) st ≡ follow false out (one v ∷ st)
  follow-print_json null out st = refl
  follow-print_json (text s) out st = follow-print_text s out st
  follow-print_json (number n) out st = follow-print_number n out st
  follow-print_json (array vs) out st = follow-print_values vs (String.◌∷◌ "a" out) st
  follow-print_json (object fs) out st = follow-print_fields fs (String.◌∷◌ "o" out) st

  follow-print_values :
      (vs : Values) (out : String) (st : List Item)
      → follow false (print_values vs out) st ≡ follow false out (some_values vs ∷ st)
  follow-print_values no_values out st = refl
  follow-print_values (value v vs) out st =
      follow-print_values vs (print_json v (String.◌∷◌ "V" out)) st
      ∙ follow-print_json v (String.◌∷◌ "V" out) (some_values vs ∷ st)

  follow-print_fields :
      (fs : Fields) (out : String) (st : List Item)
      → follow false (print_fields fs out) st ≡ follow false out (some_fields fs ∷ st)
  follow-print_fields no_fields out st = refl
  follow-print_fields (field k v fs) out st =
      follow-print_fields fs (print_json v (print_text k (String.◌∷◌ "F" out))) st
      ∙ follow-print_json v (print_text k (String.◌∷◌ "F" out)) (some_fields fs ∷ st)
      ∙ follow-print_text k (String.◌∷◌ "F" out) (one v ∷ some_fields fs ∷ st)

abbrev result_of : List Item → Error ⊎ Json
result_of (one v ∷ []) = inr v
result_of other = inl (errorf "unexpected end of JSON input")

pub stack_json : JsonText
unfolding print_json follow
stack_json = record {
  print = λ v. print_json v "";
  parse = λ s. result_of (follow false s []);
  verbatim = λ t s. s;
  no_target = errorf "json: Unmarshal(nil)";
  mismatch = errorf "json: cannot unmarshal";
}

pub stack_json-IsLossless : IsLossless stack_json
unfolding stack_json
stack_json-IsLossless = record {
  parse-print = λ v shallow. ap result_of (follow-print_json v "" []);
}
