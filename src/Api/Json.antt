-- ===== src/Api/Json.antt =====
-- JSON values, and the package github.com/json-iterator/go between values and texts.
use application_profiler.Base.{ℕ, ◌+◌, ◌≡◌, ◌≤◌, ◌⊎◌, inr, Error, String, if◌then◌else◌, ltb}

-- The values of an array and the fields of an object, in their order.
mutual
  pub data Json : Type 0 where
    null : Json
    text : String → Json
    number : ℕ → Json
    array : Values → Json
    object : Fields → Json

  pub data Values : Type 0 where
    no_values : Values
    value : Json → Values → Values

  pub data Fields : Type 0 where
    no_fields : Fields
    field : String → Json → Fields → Fields

abbrev pub greater : ℕ → ℕ → ℕ
greater m n = if ltb m n then n else m

-- How deeply arrays and objects are nested.
unfoldable mutual
  pub depth : Json → ℕ
  depth null = 0
  depth (text s) = 0
  depth (number n) = 0
  depth (array vs) = depth_values vs + 1
  depth (object fs) = depth_fields fs + 1

  pub depth_values : Values → ℕ
  depth_values no_values = 0
  depth_values (value v vs) = greater (depth v) (depth_values vs)

  pub depth_fields : Fields → ℕ
  depth_fields no_fields = 0
  depth_fields (field k v fs) = greater (depth v) (depth_fields fs)

-- `verbatim` is the text of an event whose raw data is no JSON; `no_target` and `mismatch` are errors of
-- reading.
pub record JsonText : Type 0 where
  pub print : Json → String
  pub parse : String → Error ⊎ Json
  pub verbatim : String → String → String
  pub no_target : Error
  pub mismatch : Error

-- A value that is not nested too deeply is read back from its text.
pub record IsLossless (j : JsonText) : Type 0 where
  pub parse-print : (v : Json) → depth v ≤ 10000 → j.parse (j.print v) ≡ inr v
