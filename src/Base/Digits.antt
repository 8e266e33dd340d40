-- ===== src/Base/Digits.antt =====
-- `strconv.Itoa` and the verb `%d`.
use Prim.Native.Nat.{ℕ, zero, suc, ◌+◌, ◌-◌, ◌*◌, ◌/◌, ◌%◌, ◌≤◌, ◌<◌}
use Prim.Native.Char.{Char, code}
use mathlib.Core.Path.{◌≡◌, refl, sym, ap, ◌∙◌}
use mathlib.Core.Bool.{true}
use mathlib.Core.Logic.{inl, inr}
use native.Mathlib.Omega.{arith}
use Prim.Native.String.{String, ◌++◌ as ◌<>◌}
use application_profiler.Base.Tests.{Bool-cases, ltb→lt, ltb, if◌then◌else◌}
use application_profiler.Base.Text.{lacks}
use application_profiler.Base.Int.{ℤ, pos, negsuc}

unfoldable pub digit : ℕ → Char
digit zero = "0"
digit (suc zero) = "1"
digit (suc (suc zero)) = "2"
digit (suc (suc (suc zero))) = "3"
digit (suc (suc (suc (suc zero)))) = "4"
digit (suc (suc (suc (suc (suc zero))))) = "5"
digit (suc (suc (suc (suc (suc (suc zero)))))) = "6"
digit (suc (suc (suc (suc (suc (suc (suc zero))))))) = "7"
digit (suc (suc (suc (suc (suc (suc (suc (suc zero)))))))) = "8"
digit _ = "9"

-- The digits of `n` in front of `out`. The fuel `n` is enough, because each round divides by ten.
unfoldable pub digits : ℕ → ℕ → String → String
unfolding digit
digits zero n out = String.◌∷◌ (digit (n % 10)) out
digits (suc fuel) n out =
    let more = digits fuel (n / 10) (String.◌∷◌ (digit (n % 10)) out) in
    if ltb n 10 then String.◌∷◌ (digit n) out else more

unfoldable pub itoa : ℕ → String
unfolding digits
itoa n = digits n n ""

unfoldable pub itoa_ℤ : ℤ → String
unfolding itoa
itoa_ℤ (pos n) = itoa n
itoa_ℤ (negsuc n) = "-" <> itoa (n + 1)

-- The number that digits spell behind `acc`.
pub value : ℕ → String → ℕ
value acc String.[] = acc
value acc (String.◌∷◌ c s) = value (acc * 10 + (code c - b'0')) s

pub code-digit : (d : ℕ) → d < 10 → code (digit d) ≡ b'0' + d
unfolding digit
code-digit zero h = refl
code-digit (suc zero) h = refl
code-digit (suc (suc zero)) h = refl
code-digit (suc (suc (suc zero))) h = refl
code-digit (suc (suc (suc (suc zero)))) h = refl
code-digit (suc (suc (suc (suc (suc zero))))) h = refl
code-digit (suc (suc (suc (suc (suc (suc zero)))))) h = refl
code-digit (suc (suc (suc (suc (suc (suc (suc zero))))))) h = refl
code-digit (suc (suc (suc (suc (suc (suc (suc (suc zero)))))))) h = refl
code-digit (suc (suc (suc (suc (suc (suc (suc (suc (suc zero))))))))) h = refl
code-digit (suc (suc (suc (suc (suc (suc (suc (suc (suc (suc d)))))))))) h = absurd (omega arith)

value-cons :
    (acc : ℕ) (c : Char) (s : String)
    → value acc (String.◌∷◌ c s) ≡ value (acc * 10 + (code c - b'0')) s
unfolding value
value-cons acc c s = refl

value-digit :
    (acc d : ℕ) (s : String) → d < 10 → value acc (String.◌∷◌ (digit d) s) ≡ value (acc * 10 + d) s
value-digit acc d s h =
    rw (value-cons, code-digit d h) (ap (λ (k : ℕ). value (acc * 10 + k) s) (omega arith))

value-digits : (fuel n : ℕ) (out : String) → n ≤ fuel → value 0 (digits fuel n out) ≡ value n out
unfolding digits
value-digits zero n out h =
    value-digit 0 (n % 10) out (omega arith) ∙ ap (λ (k : ℕ). value k out) (omega arith)
value-digits (suc fuel) n out h = elim (Bool-cases (ltb n 10)) [
  | inl small ↦ rw small (
      value-digit 0 n out (omega (arith, ltb→lt n 10 small))
      ∙ ap (λ (k : ℕ). value k out) (omega arith))
  | inr large ↦ rw large (
      value-digits fuel (n / 10) _ (ground arith)
      ∙ value-digit (n / 10) (n % 10) out (omega arith)
      ∙ ap (λ (k : ℕ). value k out) (omega arith))
]

-- The decimal text of a number spells it.
pub value-itoa : (n : ℕ) → value 0 (itoa n) ≡ n
unfolding itoa value
value-itoa n = value-digits n n "" (omega arith)

pub itoa-injective : (m n : ℕ) → itoa m ≡ itoa n → m ≡ n
itoa-injective m n h = sym (value-itoa m) ∙ ap (value 0) h ∙ value-itoa n

lacks-digits :
    (fuel n : ℕ) (out : String)
    → lacks b'-' out ≡ true
    → n ≤ fuel
    → lacks b'-' (digits fuel n out) ≡ true
unfolding digits
lacks-digits zero n out h fits = ground (arith, code-digit (n % 10))
lacks-digits (suc fuel) n out h fits = ground (
  arith,
  code-digit n,
  code-digit (n % 10),
  lacks-digits fuel (n / 10) (String.◌∷◌ (digit (n % 10)) out),
)

-- A decimal text has no dash.
pub lacks-itoa : (n : ℕ) → lacks b'-' (itoa n) ≡ true
unfolding itoa
lacks-itoa n = lacks-digits n n "" refl (omega arith)
