-- ===== src/Base/Lists.antt =====
-- Lists measured by native numbers, predicates over lists, and the lookup of a text.
use Prim.Native.Nat.{ℕ, zero, suc, ◌+◌}
use Prim.Native.String.{String}
use mathlib.Core.Path.{◌≡◌, refl, ap, sym, subst}
use mathlib.Core.List.{List, [], ◌∷◌, ◌++◌}
use mathlib.Core.Option.{Option, none, some}
use native.Mathlib.Omega.{arith}
use text.Mathlib.Text.{◌==◌}
use application_profiler.Base.Tests.{if◌then◌else◌, elem, Bool-cases}
use mathlib.Core.Bool.{Bool, true, ◌&&◌}
use mathlib.Core.Logic.{inl, inr}
use text.Mathlib.TextEquality.{eq_iff}

module _ {ℓ} {A : Type ℓ} where
  abbrev pub length : List A → ℕ
  length [] = 0
  length (x ∷ xs) = suc (length xs)

  abbrev pub head? : List A → Option A
  head? [] = none
  head? (x ∷ xs) = some x

  pub length-append : (xs ys : List A) → length (xs ++ ys) ≡ length xs + length ys
  length-append [] ys = omega arith
  length-append (x ∷ xs) ys = omega (arith, length-append xs ys)

  abbrev pub All {κ} : (A → Type κ) → List A → Type κ
  All P [] = Unit
  All P (x ∷ xs) = P x × All P xs

  -- A Go map with text keys, written as its literal: the value of a key, or nothing.
  abbrev pub lookup : String → List (String × A) → Option A
  lookup k [] = none
  lookup k ((j, v) ∷ m) = if k == j then some v else lookup k m

  -- Reading a missing key of a map of slices gives the nil slice.
  abbrev pub or_nil : Option (List A) → List A
  or_nil none = []
  or_nil (some xs) = xs

-- What holds of every text of a list holds of each text that the membership test finds.
pub All-elem {κ} :
    (P : String → Type κ) (xs : List String) (a : String) → All P xs → elem a xs ≡ true → P a
All-elem P [] a h m = cc
All-elem P (x ∷ xs) a h m = elim (Bool-cases (a == x)) [
  | inl e ↦ subst P (sym ((eq_iff a x).0 e)) h.0
  | inr e ↦ All-elem P xs a h.1 (rw e at m)
]

abbrev pub all {ℓ} : {A : Type ℓ} → (A → Bool) → List A → Bool
all p [] = true
all p (x ∷ xs) = p x && all p xs

pub all-elem :
    (p : String → Bool) (xs : List String) (a : String)
    → all p xs ≡ true
    → elem a xs ≡ true
    → p a ≡ true
all-elem p [] a h m = cc
all-elem p (x ∷ xs) a h m = elim (Bool-cases (a == x)) [
  | inl e ↦ ground (arith, (eq_iff a x).0 e)
  | inr e ↦ all-elem p xs a (ground arith) (ground arith)
]

module _ {ℓ} {A : Type ℓ} where
  abbrev pub get_elem? : List A → ℕ → Option A
  get_elem? [] i = none
  get_elem? (x ∷ xs) zero = some x
  get_elem? (x ∷ xs) (suc i) = get_elem? xs i

  -- A write out of bounds changes nothing.
  abbrev pub set : List A → ℕ → A → List A
  set [] i v = []
  set (x ∷ xs) zero v = v ∷ xs
  set (x ∷ xs) (suc i) v = x ∷ set xs i v

  abbrev pub replicate : ℕ → A → List A
  replicate zero a = []
  replicate (suc n) a = a ∷ replicate n a

  pub length-set : (xs : List A) (i : ℕ) (v : A) → length (set xs i v) ≡ length xs
  length-set [] i v = refl
  length-set (x ∷ xs) zero v = refl
  length-set (x ∷ xs) (suc i) v = ap suc (length-set xs i v)

  pub length-replicate : (n : ℕ) (a : A) → length (replicate n a) ≡ n
  length-replicate zero a = refl
  length-replicate (suc n) a = ap suc (length-replicate n a)
