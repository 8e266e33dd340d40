-- ===== src/Base/Errors.antt =====
-- Go's `error` values, and the outcome of a call: a value, an error, or a panic.
use Prim.Native.Nat.{ℕ}
use Prim.Native.String.{String}
use mathlib.Core.Path.{◌≡◌, refl}
use mathlib.Core.Logic.{◌≢◌, ◌⊎◌, inl, inr}
use mathlib.Core.Option.{Option, none, some}
use mathlib.Core.List.{List, [], ◌∷◌}
use mathlib.Core.Bool.{Bool, true, false}

-- `errorf` stands for `errors.New`, `errors.Errorf` and `fmt.Errorf`, with the text that they make;
-- `wrap` for `errors.Wrap` and `errors.Wrapf`; `exit_error` for an `*exec.ExitError` with its code;
-- `pid_errors` for the `pidErrors` of pids.go.
mutual
  pub data Error : Type 0 where
    errorf : String → Error
    wrap : String → Error → Error
    exit_error : ℕ → Error
    pid_errors : PidErrors → Error

  pub data PidErrors : Type 0 where
    nil : PidErrors
    failed : String → Error → PidErrors → PidErrors

pub data Result {ℓ} (A : Type ℓ) : Type ℓ where
  ok : A → Result A
  err : Error → Result A
  panic : Result A

infixl 5 ◌>>=◌ ◌>>◌
abbrev pub ◌>>=◌ {ℓ κ} : {A : Type ℓ} {B : Type κ} → Result A → (A → Result B) → Result B
ok a >>= f = f a
err e >>= f = err e
panic >>= f = panic

abbrev pub ◌>>◌ {ℓ} : {B : Type ℓ} → Result (Unit {0}) → Result B → Result B
m >> k = m >>= λ _. k

-- The call returns, or panics: it gives no error.
abbrev pub NotErr {ℓ} : {A : Type ℓ} → Result A → Type 0
NotErr (ok a) = Unit
NotErr (err e) = ⊥
NotErr panic = Unit

-- If a chain of calls gives no error, its first call panics or returns.
pub >>=-NotErr {ℓ κ} :
    {A : Type ℓ} {B : Type κ} (m : Result A) (f : A → Result B)
    → NotErr (m >>= f)
    → m ≢ panic
    → (a : A) × (m ≡ ok a) × NotErr (f a)
>>=-NotErr (ok a) f h n = (a, refl, h)
>>=-NotErr (err e) f h n = absurd h
>>=-NotErr panic f h n = absurd (n refl)

module _ {ℓ} {A : Type ℓ} where
  -- `xs[0]`
  abbrev pub first : List A → Result A
  first [] = panic
  first (x ∷ xs) = ok x

  -- The `error` that a call returned, if any.
  abbrev pub error? : Result A → Option Error
  error? (ok a) = none
  error? (err e) = some e
  error? panic = none

-- `if !test { return …, e }`
abbrev pub guard : Bool → Error → Result (Unit {0})
guard true e = ok tt
guard false e = err e

pub guard-NotErr {ℓ} :
    {A : Type ℓ} (b : Bool) (e : Error) (m : Result A)
    → NotErr (guard b e >> m)
    → (b ≡ true) × NotErr m
guard-NotErr true e m h = (refl, h)
guard-NotErr false e m h = absurd h

pub ok-injective {ℓ} : {A : Type ℓ} (a b : A) → ok a ≡ ok b → a ≡ b
ok-injective a b h = cc

pub Result-cases {ℓ} :
    {A : Type ℓ} (r : Result A)
    → ((a : A) × (r ≡ ok a)) ⊎ (((e : Error) × (r ≡ err e)) ⊎ (r ≡ panic))
Result-cases (ok a) = inl (a, refl)
Result-cases (err e) = inr (inl (e, refl))
Result-cases panic = inr (inr refl)
